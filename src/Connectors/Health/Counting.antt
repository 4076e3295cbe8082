-- ===== src/Connectors/Health/Counting.antt =====
-- When a breaker opens, counted from the calls made on it.
use case_automation_mcp.Common.{
  ℕ, ◌+◌, ◌/◌, ◌≤◌, max, String, Bool, true, false, ◌≡◌, refl, ap, ◌∙◌, ◌↔◌, inl, inr, some, List,
  [], ◌∷◌, arith, leb, Bool-cases,
}
use case_automation_mcp.Connectors.Errors.{ConnectorError}
use case_automation_mcp.Connectors.Health.{
  HealthState, healthy, degraded, open_, half_open, ConnectorHealth, new_health, state_is_open,
  record_success, record_failure, count_failure, react,
}

-- what the client tells its breaker
pub data Event : Type 0 where
  success : Event
  failure : ℕ → ConnectorError → Event

pub tell : Event → ConnectorHealth → ConnectorHealth
tell success h = record_success h
tell (failure now e) h = record_failure now e h

pub tell_all : List Event → ConnectorHealth → ConnectorHealth
tell_all [] h = h
tell_all (e ∷ es) h = tell_all es (tell e h)

-- the failures since the last success, `k` of them before the list
pub trailing : List Event → ℕ → ℕ
trailing [] k = k
trailing (success ∷ es) k = trailing es 0
trailing (failure now e ∷ es) k = trailing es (k + 1)

record Counted (threshold k : ℕ) (h : ConnectorHealth) : Type 0 where
  limit : h.failure_threshold ≡ threshold
  count : h.consecutive_failures ≡ k
  opens : state_is_open h.state ≡ leb threshold k
  unprobed : ¬ (h.state ≡ half_open)

Counted-count_failure :
    (t k now : ℕ) (h : ConnectorHealth)
    → h.failure_threshold ≡ t
    → h.consecutive_failures ≡ k
    → ¬ (h.state ≡ half_open)
    → state_is_open h.state ≡ false
    → Counted t k (count_failure now h)
unfolding count_failure
Counted-count_failure t k now h l c u closed =
    elim (Bool-cases (leb h.failure_threshold h.consecutive_failures)) [
      | inl full ↦ rw full (record {
        limit = l;
        count = c;
        opens = full_is (leb t k) (rw (l, c) at full);
        unprobed = λ e. cc;
      })
      | inr below ↦
          elim (Bool-cases (leb (max 1 (h.failure_threshold / 2)) h.consecutive_failures)) [
            | inl half ↦
                rw (below, half)
                  (record {
                    limit = l;
                    count = c;
                    opens = below_is (leb t k) (rw (l, c) at below);
                    unprobed = λ e. cc;
                  })
            | inr few ↦
                rw (below, few)
                  (record {
                    limit = l;
                    count = c;
                    opens = closed ∙ below_is (leb t k) (rw (l, c) at below);
                    unprobed = u;
                  })
          ]
    ]
  where
    full_is : (b : Bool) → b ≡ true → true ≡ b
    full_is b e = cc

    below_is : (b : Bool) → b ≡ false → false ≡ b
    below_is b e = cc

Counted-tell :
    (t k : ℕ) (h : ConnectorHealth) (now : ℕ) (e : ConnectorError)
    → Counted t k h
    → Counted t (k + 1) (record_failure now e h)
unfolding record_failure
Counted-tell t k h now e c = go h.state refl
  where
    counted : ConnectorHealth
    counted = record h { last_error = some e; consecutive_failures = h.consecutive_failures + 1 }

    still :
        (b : Bool)
        → state_is_open h.state ≡ b
        → state_is_open h.state ≡ true
        → (b ≡ true → leb t (k + 1) ≡ true)
        → state_is_open h.state ≡ leb t (k + 1)
    still b e o f = rw (o, f (cc))

    go : (s : HealthState) → h.state ≡ s → Counted t (k + 1) (react now counted s)
    go healthy q =
        Counted-count_failure t (k + 1) now counted c.limit (ap (λ n. n + 1) c.count) c.unprobed
          (rw q)
    go degraded q =
        Counted-count_failure t (k + 1) now counted c.limit (ap (λ n. n + 1) c.count) c.unprobed
          (rw q)
    go half_open q = absurd (c.unprobed q)
    go open_ q = record {
      limit = c.limit;
      count = ap (λ n. n + 1) c.count;
      opens = still (leb t k) c.opens (rw q) (ground arith);
      unprobed = c.unprobed;
    }

Counted-tell_all :
    (t k : ℕ) (es : List Event) (h : ConnectorHealth)
    → 1 ≤ t
    → Counted t k h
    → Counted t (trailing es k) (tell_all es h)
unfolding tell_all trailing tell
Counted-tell_all t k [] h p c = c
Counted-tell_all t k (failure now e ∷ es) h p c =
    Counted-tell_all t (k + 1) es (record_failure now e h) p (Counted-tell t k h now e c)
Counted-tell_all t k (success ∷ es) h p c = Counted-tell_all t 0 es (record_success h) p (
    unfold record_success in
    record { limit = c.limit; count = refl; opens = ground arith; unprobed = λ e. cc })

-- Told of successes and failures only, a new breaker with a threshold of one at least is open
-- exactly when the failures since the last success have reached the threshold.
pub opens_iff :
    (connector : String) (threshold cool_down : ℕ) (es : List Event)
    → 1 ≤ threshold
    → (state_is_open (tell_all es (new_health connector threshold cool_down)).state ≡ true)
      ↔ (threshold ≤ trailing es 0)
opens_iff connector threshold cool_down es p =
    let c =
      Counted-tell_all threshold 0 es (new_health connector threshold cool_down) p
        (record { limit = refl; count = refl; opens = ground arith; unprobed = λ e. cc }) in
    (λ h. ground (arith, h, c.opens), λ h. ground (arith, h, c.opens))
