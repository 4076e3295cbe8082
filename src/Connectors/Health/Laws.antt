-- ===== src/Connectors/Health/Laws.antt =====
-- The invariant of the breaker, and how long it stays open.
use case_automation_mcp.Common.{
  ℕ, ◌+◌, ◌/◌, ◌≤◌, ◌<◌, max, true, false, ◌≡◌, refl, ap, ◌∙◌, ◌↔◌, ◌⊎◌, inl, inr, Option, some,
  arith, leb, if◌then◌else◌, is_some, Bool-cases,
}
use case_automation_mcp.Connectors.Errors.{ConnectorError}
use case_automation_mcp.Connectors.Health.{
  HealthState, healthy, degraded, open_, half_open, ConnectorHealth, state_is_open, read_state,
  is_open, record_success, record_failure, count_failure, react, probing, cooled,
}

-- what the state says of the other fields
abbrev pub Fits : ℕ → ℕ → Option ℕ → HealthState → Type 0
Fits threshold failures opened healthy = failures < threshold
Fits threshold failures opened degraded = failures < threshold
Fits threshold failures opened open_ = is_some opened ≡ true
Fits threshold failures opened half_open = is_some opened ≡ true

unfoldable pub WellFormed : ConnectorHealth → Type 0
WellFormed h = Fits h.failure_threshold h.consecutive_failures h.opened_at h.state

-- one call on a breaker
pub data ◌⇒◌ : ConnectorHealth → ConnectorHealth → Type 0 where
  read : (now : ℕ) (h : ConnectorHealth) → ◌⇒◌ h (read_state now h)
  success : (h : ConnectorHealth) → ◌⇒◌ h (record_success h)
  failure : (now : ℕ) (e : ConnectorError) (h : ConnectorHealth) → ◌⇒◌ h (record_failure now e h)

WellFormed-count_failure :
    (now : ℕ) (h : ConnectorHealth)
    → (h.state ≡ healthy) ⊎ (h.state ≡ degraded)
    → WellFormed (count_failure now h)
unfolding WellFormed count_failure
WellFormed-count_failure now h e =
    elim (Bool-cases (leb h.failure_threshold h.consecutive_failures)) [
      | inl full ↦ rw full refl
      | inr below ↦
          elim (Bool-cases (leb (max 1 (h.failure_threshold / 2)) h.consecutive_failures)) [
            | inl some_ ↦ rw (below, some_) (ground arith)
            | inr few ↦ rw (below, few) (closed h.state e (ground arith))
          ]
    ]
  where
    closed :
        (s : HealthState)
        → (s ≡ healthy) ⊎ (s ≡ degraded)
        → h.consecutive_failures < h.failure_threshold
        → Fits h.failure_threshold h.consecutive_failures h.opened_at s
    closed healthy e w = w
    closed degraded e w = w
    closed open_ e w = ground arith
    closed half_open e w = ground arith

WellFormed-react :
    (now : ℕ) (h : ConnectorHealth) (s : HealthState)
    → h.state ≡ s
    → (s ≡ open_ → is_some h.opened_at ≡ true)
    → WellFormed (react now h s)
unfolding WellFormed
WellFormed-react now h healthy e w = WellFormed-count_failure now h (inl e)
WellFormed-react now h degraded e w = WellFormed-count_failure now h (inr e)
WellFormed-react now h half_open e w = refl
WellFormed-react now h open_ e w = rw e (w refl)

opened_of_Fits : (h : ConnectorHealth) → WellFormed h → h.state ≡ open_ → is_some h.opened_at ≡ true
unfolding WellFormed
opened_of_Fits h w e = rw e at w

WellFormed-read :
    (now : ℕ) (h : ConnectorHealth) (s : HealthState)
    → h.state ≡ s
    → WellFormed h
    → Fits h.failure_threshold h.consecutive_failures h.opened_at (probing now h s)
unfolding WellFormed
WellFormed-read now h healthy e w = rw e at w
WellFormed-read now h degraded e w = rw e at w
WellFormed-read now h half_open e w = rw e at w
WellFormed-read now h open_ e w =
    let w' : is_some h.opened_at ≡ true = rw e at w in
    elim (cooled now h.cool_down h.opened_at)
      as (λ b.
        Fits h.failure_threshold h.consecutive_failures h.opened_at
          (if b then half_open else open_)) [ true ↦ w' | false ↦ w' ]

-- A call keeps a breaker with a threshold of one at least well formed: below the threshold of
-- failures while it is closed, and with the time it opened while it is not.
pub WellFormed-⇒ :
    {a b : ConnectorHealth} → 1 ≤ a.failure_threshold → ◌⇒◌ a b → WellFormed a → WellFormed b
WellFormed-⇒ t (read now h) w = unfold WellFormed read_state in WellFormed-read now h h.state refl w
WellFormed-⇒ t (success h) w = unfold WellFormed record_success in t
WellFormed-⇒ t (failure now e h) w =
    unfold record_failure in
    WellFormed-react now
      (record h { last_error = some e; consecutive_failures = h.consecutive_failures + 1 }) h.state
      refl (opened_of_Fits h w)

-- An open breaker answers that it is open exactly until its cool-down has passed.
pub is_open-until :
    (now t : ℕ) (h : ConnectorHealth)
    → h.state ≡ open_
    → h.opened_at ≡ some t
    → ((is_open now h).0 ≡ true) ↔ (now < t + h.cool_down)
unfolding is_open read_state
is_open-until now t h e o = rw (e, o) (λ a. ground (arith, a), λ b. ground arith)

probing-closed :
    (now : ℕ) (h : ConnectorHealth) (s : HealthState)
    → state_is_open s ≡ false
    → probing now h s ≡ s
probing-closed now h healthy e = refl
probing-closed now h degraded e = refl
probing-closed now h half_open e = refl
probing-closed now h open_ e = cc

-- a read of a breaker that is not open changes nothing
pub is_open-closed :
    (now : ℕ) (h : ConnectorHealth) → state_is_open h.state ≡ false → is_open now h ≡ (false, h)
unfolding is_open read_state
is_open-closed now h e =
    ap (λ s. (state_is_open s, record h { state = s })) (probing-closed now h h.state e)
    ∙ ap (λ b. (b, h)) e

pub is_open-state :
    (now : ℕ) (h : ConnectorHealth) → state_is_open (is_open now h).1.state ≡ (is_open now h).0
unfolding is_open
is_open-state now h = refl

pub state-record_success : (h : ConnectorHealth) → (record_success h).state ≡ healthy
unfolding record_success
state-record_success h = refl
