-- ===== src/Connectors/Outbound/Replay.antt =====
-- Writes with an idempotency key.
use case_automation_mcp.Common.{
  ℕ, zero, suc, ◌+◌, String, true, false, ◌≡◌, refl, ap, sym, ◌∙◌, inl, inr, some, Outcome, ok, err,
  Bool-cases, Option-cases, truthy, Dict, lookup-insert, eq_refl, >>=-eq-ok, ◌>>◌, subst, is_some,
  leb, none, ◌*◌, ◌<◌, lt→ltb,
}
use case_automation_mcp.Json.{Json}
use case_automation_mcp.Connectors.Errors.{ConnectorError, Response, is_retryable}
use case_automation_mcp.Connectors.Health.{state_is_open, is_open}
use case_automation_mcp.Connectors.Health.Laws.{is_open-closed, is_open-state, state-record_success}
use case_automation_mcp.Connectors.Outbound.{
  World, Client, Raised, connector_error, out_of_fuel, Calling, RetryPolicy, Write, single_attempt,
  fail_with, sleep, guard_circuit, resolve_idem_key, after_failure, conclude, round, loop,
  execute_with_retry, remember, result_data, StoredResult, idem_ttl_seconds, idem_set, idem_get,
  replay, perform, replay_or_perform, request,
}

-- the parts of the client that the retry loop leaves alone
record Kept (a b : Client) : Type 0 where
  connector : b.connector ≡ a.connector
  redis : b.redis ≡ a.redis

Kept-trans : {a b c : Client} → Kept a b → Kept b c → Kept a c
Kept-trans p q = record { connector = q.connector ∙ p.connector; redis = q.redis ∙ p.redis }

Keeps : Calling Response → Type 0
Keeps f = (m : Client) → Kept m (f m).1

Kept-sleep :
    (w : World) (p : RetryPolicy) (deadline attempt : ℕ) (e : ConnectorError) (m : Client)
    → Kept m (sleep w p deadline attempt e m)
unfolding sleep
Kept-sleep w p deadline attempt e m = record { connector = refl; redis = refl }

Kept-fail_with : (e : ConnectorError) (m : Client) → Kept m (fail_with e m)
unfolding fail_with
Kept-fail_with e m = record { connector = refl; redis = refl }

Kept-single_attempt : (w : World) (m : Client) → Kept m (single_attempt w m).1
unfolding single_attempt
Kept-single_attempt w m = record { connector = refl; redis = refl }

Kept-after_failure :
    (w : World) (p : RetryPolicy) (deadline attempt : ℕ) (e : ConnectorError)
    (again : Calling Response) (m : Client)
    → Keeps again
    → Kept m (after_failure w p deadline attempt e again m).1
unfolding after_failure
Kept-after_failure w p deadline attempt e again m k = elim (Bool-cases (is_retryable e.class_)) [
  | inr final ↦ rw final (record { connector = refl; redis = refl })
  | inl retry ↦ elim (Bool-cases (leb p.max_attempts attempt)) [
    | inl last ↦ rw (retry, last) (record { connector = refl; redis = refl })
    | inr more ↦ elim (Bool-cases (leb deadline m.now)) [
      | inl late ↦ rw (retry, more, late) (record { connector = refl; redis = refl })
      | inr early ↦
          rw (retry, more, early)
            (Kept-trans (Kept-sleep w p deadline attempt e m)
              (unfold Keeps in k (sleep w p deadline attempt e m)))
    ]
  ]
]

Kept-conclude :
    (w : World) (p : RetryPolicy) (deadline attempt : ℕ) (again : Calling Response)
    (r : Outcome Raised Response) (m : Client)
    → Keeps again
    → Kept m (conclude w p deadline attempt again r m).1
unfolding conclude
Kept-conclude w p deadline attempt again (ok r) m k = record { connector = refl; redis = refl }
Kept-conclude w p deadline attempt again (err out_of_fuel) m k = record {
  connector = refl;
  redis = refl;
}
Kept-conclude w p deadline attempt again (err (connector_error e)) m k =
    Kept-trans (Kept-fail_with e m)
      (Kept-after_failure w p deadline attempt e again (fail_with e m) k)

Kept-round :
    (w : World) (p : RetryPolicy) (deadline attempt : ℕ) (again : Calling Response) (m : Client)
    → Keeps again
    → Kept m (round w p deadline attempt again m).1
unfolding round
Kept-round w p deadline attempt again m k = elim (Bool-cases (leb deadline m.now)) [
  | inl late ↦ rw late (Kept-fail_with _ m)
  | inr early ↦ rw early (
      Kept-trans (Kept-single_attempt w m)
        (Kept-conclude w p deadline attempt again (single_attempt w m).0 (single_attempt w m).1 k))
]

Keeps-loop :
    (w : World) (p : RetryPolicy) (deadline attempt fuel : ℕ)
    → Keeps (loop w p deadline attempt fuel)
unfolding Keeps loop
Keeps-loop w p deadline attempt zero m = record { connector = refl; redis = refl }
Keeps-loop w p deadline attempt (suc fuel) m =
    Kept-round w p deadline (attempt + 1) (loop w p deadline (attempt + 1) fuel) m
      (Keeps-loop w p deadline (attempt + 1) fuel)

Keeps-execute_with_retry :
    (w : World) (p : RetryPolicy) (m : Client) → Kept m (execute_with_retry w p m).1
unfolding execute_with_retry
Keeps-execute_with_retry w p m = unfold Keeps in Keeps-loop w p _ 0 _ m

guard_circuit-closed :
    (m : Client) → state_is_open m.health.state ≡ false → guard_circuit m ≡ (ok tt, m)
unfolding guard_circuit
guard_circuit-closed m e = rw (is_open-closed m.now m.health e)

guard_circuit-ok :
    (m a : Client)
    → guard_circuit m ≡ (ok tt, a)
    → (state_is_open a.health.state ≡ false)
      × Kept m a
      × ((k : String) → idem_get a (some k) ≡ idem_get m (some k))
unfolding guard_circuit idem_get
guard_circuit-ok m a h = elim (Bool-cases (is_open m.now m.health).0) [
  | inl open_now ↦ cc (ap (λ x. x.0) (rw open_now at h))
  | inr closed ↦
      let after : record m { health = (is_open m.now m.health).1 } ≡ a = ap (λ x. x.1) h in
      let shut = is_open-state m.now m.health ∙ closed in
      (
        ap (λ x. state_is_open x.health.state) (sym after) ∙ shut,
        record {
          connector = ap (λ x. x.connector) (sym after);
          redis = ap (λ x. x.redis) (sym after);
        },
        λ k. ap (λ x. idem_get x (some k)) (sym after),
      )
]

-- what a successful write with a key leaves behind: a closed breaker, and a recorded answer until then
record Settled (k : String) (j : Json) (until : ℕ) (m : Client) : Type 0 where
  shut : state_is_open m.health.state ≡ false
  recorded : (later : ℕ) → later < until → idem_get (record m { now = later }) (some k) ≡ some j

recorded-remember :
    (w : World) (q : Write) (k : String) (d : Dict StoredResult) (r : Response) (a : Client)
    (later : ℕ)
    → q.is_write ≡ true
    → truthy k ≡ true
    → a.redis ≡ some d
    → later < a.now + idem_ttl_seconds * w.ticks_per_second
    → idem_get (record (remember w q (some k) r a) { now = later }) (some k)
      ≡ some (result_data w r)
unfolding remember idem_get idem_set
recorded-remember w q k d r a later write given redis early =
    rw (write, redis, given)
      (rw lookup-insert
        (rw eq_refl (rw (lt→ltb later (a.now + idem_ttl_seconds * w.ticks_per_second) early) refl)))

shut-remember :
    (w : World) (q : Write) (k : String) (r : Response) (a : Client)
    → state_is_open (remember w q (some k) r a).health.state ≡ false
unfolding remember
shut-remember w q k r a = ap state_is_open (state-record_success a.health)

now-remember :
    (w : World) (q : Write) (k : String) (r : Response) (a : Client)
    → (remember w q (some k) r a).now ≡ a.now
unfolding remember
now-remember w q k r a = refl

Settled-remember :
    (w : World) (q : Write) (k : String) (d : Dict StoredResult) (r : Response) (a : Client)
    → q.is_write ≡ true
    → truthy k ≡ true
    → a.redis ≡ some d
    → Settled k
        (result_data w r)
        ((remember w q (some k) r a).now + idem_ttl_seconds * w.ticks_per_second)
        (remember w q (some k) r a)
Settled-remember w q k d r a write given redis = rw now-remember (record {
  shut = shut-remember w q k r a;
  recorded = λ later early. recorded-remember w q k d r a later write given redis early;
})

Settled-perform :
    (w : World) (p : RetryPolicy) (q : Write) (k : String) (d : Dict StoredResult) (m m' : Client)
    (r : Response)
    → q.is_write ≡ true
    → truthy k ≡ true
    → m.redis ≡ some d
    → perform w p q (some k) m ≡ (ok r, m')
    → Settled k (result_data w r) (m'.now + idem_ttl_seconds * w.ticks_per_second) m'
unfolding perform
Settled-perform w p q k d m m' r write given redis h =
    let (x, a, e, h1) = >>=-eq-ok (execute_with_retry w p) _ m h in
    let kept : Kept m a = subst (Kept m) (ap (λ y. y.1) e) (Keeps-execute_with_retry w p m) in
    let same : x ≡ r = cc in
    let left : remember w q (some k) x a ≡ m' = ap (λ y. y.1) h1 in
    let s = Settled-remember w q k d x a write given (kept.redis ∙ redis) in
    subst (λ n. Settled k (result_data w r) (n.now + idem_ttl_seconds * w.ticks_per_second) n) left
      (subst
        (λ y.
          Settled k (result_data w y)
            ((remember w q (some k) x a).now + idem_ttl_seconds * w.ticks_per_second)
            (remember w q (some k) x a))
        same s)

performs :
    (w : World) (p : RetryPolicy) (q : Write) (k : String) (m : Client)
    (x : Outcome Raised Response × Client)
    → idem_get m (some k) ≡ none
    → replay_or_perform w p q (some k) m ≡ x
    → perform w p q (some k) m ≡ x
unfolding replay_or_perform
performs w p q k m x new h = rw (new, replay_or_perform) at h

resolve-given :
    (w : World) (q : Write) (k : String) (m : Client)
    → q.is_write ≡ true
    → q.idem_key ≡ some k
    → is_some m.redis ≡ true
    → resolve_idem_key w q m ≡ some k
unfolding resolve_idem_key
resolve-given w q k m write key redis = rw (write, redis, key)

replayed :
    (w : World) (p : RetryPolicy) (q : Write) (k : String) (m : Client)
    (shut : state_is_open m.health.state ≡ false) (j : Json)
    → resolve_idem_key w q m ≡ some k
    → idem_get m (some k) ≡ some j
    → request w p q m ≡ (ok (replay w j), m)
unfolding request replay_or_perform
replayed w p q k m shut j key found =
    rw (guard_circuit-closed m shut) (rw key (rw (found, replay_or_perform)))

redis_of_answer :
    (k : String) (m : Client) (j : Json) → idem_get m (some k) ≡ some j → is_some m.redis ≡ true
unfolding idem_get
redis_of_answer k m j h = elim (Option-cases m.redis) [
  | inl absent ↦ cc (rw absent at h)
  | inr (d, there) ↦ rw there
]

opened :
    (w : World) (p : RetryPolicy) (q : Write) (m : Client) {m' : Client} {r : Response}
    → request w p q m ≡ (ok r, m')
    → (guard_circuit >> (λ m. replay_or_perform w p q (resolve_idem_key w q m) m)) m ≡ (ok r, m')
unfolding request
opened w p q m h = h

-- Once a write with a key that is not empty and has no live record has succeeded, on a client that has
-- a record of results, the same write sends nothing for a day: it answers with the data of the first
-- response and leaves the client as it was.
pub request_once :
    (w w' : World) (p p' : RetryPolicy) (q : Write) (k : String) (d : Dict StoredResult)
    (m m' : Client) (r : Response) (later : ℕ)
    → q.is_write ≡ true
    → q.idem_key ≡ some k
    → truthy k ≡ true
    → m.redis ≡ some d
    → idem_get m (some k) ≡ none
    → request w p q m ≡ (ok r, m')
    → later < m'.now + 86400 * w.ticks_per_second
    → request w' p' q (record m' { now = later })
      ≡ (ok (replay w' (result_data w r)), record m' { now = later })
request_once w w' p p' q k d m m' r later write key given redis new h early =
    let (_, a, e, h1) =
      >>=-eq-ok guard_circuit (λ _ m. replay_or_perform w p q (resolve_idem_key w q m) m) m
        (opened w p q m h) in
    let (shut, kept, same_record) = guard_circuit-ok m a e in
    let there = kept.redis ∙ redis in
    let same_key = resolve-given w q k a write key (ap is_some there) in
    let performed : perform w p q (some k) a ≡ (ok r, m') =
      performs w p q k a (ok r, m') (same_record k ∙ new)
        (sym (ap (λ x. replay_or_perform w p q x a) same_key) ∙ h1) in
    let s = Settled-perform w p q k d a m' r write given there performed in
    let found = s.recorded later early in
    let m'' = record m' { now = later } in
    replayed w' p' q k m'' s.shut (result_data w r)
      (resolve-given w' q k m'' write key (redis_of_answer k m'' (result_data w r) found)) found
