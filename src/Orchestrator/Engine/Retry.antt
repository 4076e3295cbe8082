-- ===== src/Orchestrator/Engine/Retry.antt =====
-- The retry of `_execute` (src/cam/core/orchestrator/engine.py), and the fuel of `execute`.
use case_automation_mcp.Common.{
  ℕ, suc, String, true, some, List, [], ◌∷◌, ◌≡◌, refl, sym, ap, ◌∙◌, Outcome, ok, err, continue,
  ◌>>=◌, arith, ltb, ◌&&◌, Option-cases, Bool-cases, inl, inr, fun_ext,
}
use case_automation_mcp.Orchestrator.States.{
  StepStatus, StepError, StepState, WorkflowRun, is_legal_step_transition,
}
use case_automation_mcp.Orchestrator.Store.{
  Error, key_error, illegal_step, RunStore, get_step, update_step, change_step, change_steps,
}
use case_automation_mcp.Orchestrator.Store.Calls.{
  update_step-missing, update_step-illegal, update_step-legal, get_step-update_step,
}
use case_automation_mcp.Orchestrator.Dsl.{get_workflow_latest}
use case_automation_mcp.Orchestrator.Idempotency.{lookup_output}
use case_automation_mcp.Orchestrator.Engine.{
  Env, Machine, Engine, Pass, Carry, Attempt, max_attempts, classify_error, failed_state,
  retry_or_park, settle, fresh_step, normal_step, run_step, run_steps, execute_locked, enter,
  execute, fetch, start_running, lift,
}

abbrev as_pending : StepState → StepState
as_pending s = record s { status = StepStatus.pending }

-- Once a step is written as failed, writing it as pending is refused.
update_step-pending :
    (s : StepState) (st st' : RunStore)
    → s.status ≡ StepStatus.failed
    → update_step s st ≡ (ok tt, st')
    → update_step (as_pending s) st'
      ≡ (err (illegal_step StepStatus.failed StepStatus.pending), st')
update_step-pending s st st' f h = elim (Option-cases (get_step s.run_id s.step st)) [
  | inl missing ↦ cc (update_step-missing s st missing)
  | inr (old, e) ↦ elim (Bool-cases (is_legal_step_transition old.status s.status)) [
    | inl legal ↦
        let same : change_steps s.run_id (change_step s.step (λ _. s)) st ≡ st' =
          ap (λ x. x.1) (sym (update_step-legal s old st e legal) ∙ h) in
        let found : get_step s.run_id s.step st' ≡ some s =
          rw (← same) (get_step-update_step s old st e) in
        update_step-illegal (as_pending s) s st' found
          (rw f (unfold is_legal_step_transition in refl))
        ∙ rw f
    | inr illegal ↦ cc (update_step-illegal s old st e illegal)
  ]
]

module _ (again : String → Engine WorkflowRun) (now : ℕ) (id : String) (e : StepError)
    (s : StepState) (c : Carry) (m : Machine) where
  pub retry_refused :
      (st : RunStore)
      → (e.retryable && ltb s.attempt max_attempts) ≡ true
      → s.status ≡ StepStatus.failed
      → update_step s st ≡ (ok tt, m.store)
      → retry_or_park again now id e s c m
        ≡ (err (illegal_step StepStatus.failed StepStatus.pending), m)
  unfolding retry_or_park
  retry_refused st t f h = rw t (rw (update_step-pending s st m.store f h))

module _ (again again' : String → Engine WorkflowRun) (now : ℕ) (id : String) where
  retry_or_park-again :
      (e : StepError) (s : StepState) (c : Carry) (m : Machine) (st : RunStore)
      → s.status ≡ StepStatus.failed
      → update_step s st ≡ (ok tt, m.store)
      → retry_or_park again now id e s c m ≡ retry_or_park again' now id e s c m
  retry_or_park-again e s c m st f h =
      elim (Bool-cases (e.retryable && ltb s.attempt max_attempts)) [
        | inl t ↦
            retry_refused again now id e s c m st t f h
            ∙ sym (retry_refused again' now id e s c m st t f h)
        | inr t ↦ unfold retry_or_park in rw t
      ]

  settle-again : (a : Attempt) (m : Machine) → settle again now id a m ≡ settle again' now id a m
  settle-again a m = elim (Option-cases a.fault) [
    | inl none_there ↦ unfold settle in rw none_there
    | inr (f, e) ↦
        unfold settle in
        rw e (
          go_on (classify_error f a.state.attempt)
            (update_step (failed_state now (classify_error f a.state.attempt) a.state) m.store)
            refl)
  ]
    where
      go_on :
          (e : StepError) (p : Outcome Error Unit × RunStore)
          → update_step (failed_state now e a.state) m.store ≡ p
          → continue p.0
              (λ _. retry_or_park again now id e (failed_state now e a.state) a.carry)
              (record m { store = p.1 })
            ≡ continue p.0
                (λ _. retry_or_park again' now id e (failed_state now e a.state) a.carry)
                (record m { store = p.1 })
      go_on e (ok _, st) h =
          retry_or_park-again e (failed_state now e a.state) a.carry (record m { store = st })
            m.store refl h
      go_on e (err x, st) h = refl

module _ (again again' : String → Engine WorkflowRun) where
  fresh_step-again :
      (p : Pass) (s : StepState) (c : Carry) → fresh_step again p s c ≡ fresh_step again' p s c
  unfolding fresh_step
  fresh_step-again p s c =
      let same : settle again p.now p.run_id ≡ settle again' p.now p.run_id =
        fun_ext (λ a. fun_ext (settle-again again again' p.now p.run_id a)) in
      rw same

  normal_step-again :
      (p : Pass) (s : StepState) (c : Carry) → normal_step again p s c ≡ normal_step again' p s c
  unfolding normal_step
  normal_step-again p s c = fun_ext (λ m. elim (Option-cases (lookup_output s.idem_key m.idem)) [
    | inl new ↦ rw (new, normal_step) (ap (λ k. k m) (fresh_step-again p s c))
    | inr (o, e) ↦ rw (e, normal_step)
  ])

  run_step-again :
      (env : Env) (p : Pass) (s : StepState) (c : Carry)
      → run_step env again p s c ≡ run_step env again' p s c
  unfolding run_step
  run_step-again env p s c = rw normal_step-again

  run_steps-again :
      (env : Env) (p : Pass) (l : List StepState) (c : Carry)
      → run_steps env again p l c ≡ run_steps env again' p l c
  unfolding run_steps
  run_steps-again env p [] c = refl
  run_steps-again env p (s ∷ l) c = rw (run_step-again env p s c, fun_ext (run_steps-again env p l))

  execute_locked-again :
      (env : Env) (now : ℕ) (id : String)
      → execute_locked env again now id ≡ execute_locked env again' now id
  unfolding execute_locked
  execute_locked-again env now id =
      ap (λ k. fetch key_error id >>= k)
        (fun_ext λ found.
          ap (λ k. start_running now id found >>= k)
            (fun_ext λ run.
              ap (λ k. lift (get_workflow_latest run.workflow env.registry) >>= k)
                (fun_ext λ d. fun_ext λ m. ap (λ k. k m) (run_steps-again env _ _ _))))

  -- Whatever the nested `execute` of a retry would do, a call of `execute` does the same: the retry is
  -- never reached.
  pub enter-again :
      (env : Env) (now : ℕ) (id : String) (m : Machine)
      → enter env again now id m ≡ enter env again' now id m
  unfolding enter
  enter-again env now id m = ground (arith, execute_locked-again env now id)

-- With any positive fuel, `execute` does what it would do with any nested call for a retry: the
-- nested call is never made, so that the fuel does not run out.
pub execute-fuel :
    (env : Env) (now fuel : ℕ) (id : String) (again : String → Engine WorkflowRun) (m : Machine)
    → execute env now (suc fuel) id m ≡ enter env again now id m
unfolding execute
execute-fuel env now fuel id again m = enter-again (execute env now fuel) again env now id m
