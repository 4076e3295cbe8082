-- ===== src/Connectors/Outbound/Retry.antt =====
-- How the retry loop ends.
use case_automation_mcp.Common.{
  ℕ, zero, suc, ◌+◌, ◌≤◌, ◌<◌, max, String, true, false, ◌≡◌, refl, ◌∙◌, inl, inr, leb, Outcome, ok,
  err, Bool-cases, arith, subst,
}
use case_automation_mcp.Connectors.Errors.{ConnectorError, is_retryable, Response}
use case_automation_mcp.Connectors.Outbound.{
  World, Client, Raised, connector_error, out_of_fuel, Calling, RetryPolicy, Answer, answered,
  threw, is_success, judge, single_attempt, fail_with, sleep, after_failure, conclude, round, loop,
  execute_with_retry,
}

-- What the loop may come to: a successful answer, or an error that is not to be retried.
pub Final : Outcome Raised Response → Type 0
Final (ok r) = is_success r ≡ true
Final (err out_of_fuel) = ⊥
Final (err (connector_error e)) = is_retryable e.class_ ≡ false

-- with at most `limit` requests sent
pub Ends : ℕ → Outcome Raised Response × Client → Type 0
Ends limit (r, m) = Final r × (m.sent ≤ limit)

Ends-after_failure :
    (w : World) (p : RetryPolicy) (deadline attempt limit : ℕ) (e : ConnectorError)
    (again : Calling Response) (m : Client)
    → m.sent ≤ limit
    → (attempt < p.max_attempts → (m' : Client) → m'.sent ≡ m.sent → Ends limit (again m'))
    → Ends limit (after_failure w p deadline attempt e again m)
unfolding after_failure Ends Final
Ends-after_failure w p deadline attempt limit e again m sent next =
    elim (Bool-cases (is_retryable e.class_)) [
      | inr final ↦ rw final (final, sent)
      | inl retry ↦ elim (Bool-cases (leb p.max_attempts attempt)) [
        | inl last ↦ rw (retry, last) (refl, sent)
        | inr more ↦ elim (Bool-cases (leb deadline m.now)) [
          | inl late ↦ rw (retry, more, late) (refl, sent)
          | inr early ↦
              rw (retry, more, early)
                (next (ground arith) (sleep w p deadline attempt e m) (unfold sleep in refl))
        ]
      ]
    ]

Ends-conclude :
    (w : World) (p : RetryPolicy) (deadline attempt limit : ℕ) (again : Calling Response)
    (m : Client) (r : Outcome Raised Response)
    → ¬ (r ≡ err out_of_fuel)
    → ((x : Response) → r ≡ ok x → is_success x ≡ true)
    → m.sent ≤ limit
    → (attempt < p.max_attempts → (m' : Client) → m'.sent ≡ m.sent → Ends limit (again m'))
    → Ends limit (conclude w p deadline attempt again r m)
unfolding conclude Ends Final
Ends-conclude w p deadline attempt limit again m (ok r) fuel good sent next = (good r refl, sent)
Ends-conclude w p deadline attempt limit again m (err out_of_fuel) fuel good sent next =
    absurd (fuel refl)
Ends-conclude w p deadline attempt limit again m (err (connector_error e)) fuel good sent next =
    Ends-after_failure w p deadline attempt limit e again (fail_with e m) (unfold fail_with in sent)
      (λ more m' same. next more m' (same ∙ (unfold fail_with in refl)))

judge-fuel : (w : World) (c : String) (a : Answer) → ¬ (judge w c a ≡ err out_of_fuel)
unfolding judge
judge-fuel w c (threw f) h = cc
judge-fuel w c (answered r) h = ground (arith, h)

judge-ok :
    (w : World) (c : String) (a : Answer) (x : Response) → judge w c a ≡ ok x → is_success x ≡ true
unfolding judge
judge-ok w c (threw f) x h = cc
judge-ok w c (answered r) x h = ground (arith, h)

Ends-round :
    (w : World) (p : RetryPolicy) (deadline attempt limit : ℕ) (again : Calling Response)
    (m : Client)
    → m.sent + 1 ≤ limit
    → (attempt < p.max_attempts → (m' : Client) → m'.sent ≡ m.sent + 1 → Ends limit (again m'))
    → Ends limit (round w p deadline attempt again m)
unfolding round
Ends-round w p deadline attempt limit again m sent next = elim (Bool-cases (leb deadline m.now)) [
  | inl late ↦ rw late (unfold Ends Final fail_with in (refl, omega (arith, sent)))
  | inr early ↦ rw early (
      unfold single_attempt in
      Ends-conclude w p deadline attempt limit again _ (judge w m.connector (w.answers m.sent))
        (judge-fuel w m.connector (w.answers m.sent)) (judge-ok w m.connector (w.answers m.sent))
        sent next)
]

Ends-loop :
    (w : World) (p : RetryPolicy) (deadline attempt fuel : ℕ) (m : Client)
    → 1 ≤ fuel
    → p.max_attempts ≤ attempt + fuel
    → Ends (m.sent + fuel) (loop w p deadline attempt fuel m)
unfolding loop
Ends-loop w p deadline attempt zero m some_ enough = ground arith
Ends-loop w p deadline attempt (suc fuel) m some_ enough =
    Ends-round w p deadline (attempt + 1) (m.sent + suc fuel) (loop w p deadline (attempt + 1) fuel)
      m (omega arith)
      (λ more m' same.
        subst (λ n. Ends n (loop w p deadline (attempt + 1) fuel m')) (omega (arith, same))
          (Ends-loop w p deadline (attempt + 1) fuel m' (omega (arith, more, enough))
            (omega (arith, enough))))

-- The loop comes to an end within `max_attempts` requests, and one at least: with a successful
-- answer, or with an error that is not to be retried. Its fuel never runs out.
pub execute_with_retry-Ends :
    (w : World) (p : RetryPolicy) (m : Client)
    → Ends (m.sent + max 1 p.max_attempts) (execute_with_retry w p m)
unfolding execute_with_retry
execute_with_retry-Ends w p m =
    Ends-loop w p (m.now + p.total_deadline) 0 (max 1 p.max_attempts) m (omega arith) (omega arith)
