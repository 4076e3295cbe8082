-- ===== src/Orchestrator/Engine.antt =====
-- src/cam/core/orchestrator/engine.py: `WorkflowEngine`. One reading of the clock, `now`, serves a
-- whole call. `uuid4` is a supply of texts with a counter. Logging, tracing and the sleep between
-- attempts leave no trace in the state.
pub mod Retry
pub mod Opening
pub mod Passes
pub mod Faults
mod Tests
use case_automation_mcp.Common.{
  ℕ, zero, suc, ◌+◌, String, Bool, true, false, Option, none, some, List, [], ◌∷◌, ◌++◌, reverse,
  Dict, lookup, insert, Outcome, ok, err, Exec, pure, raise, ◌>>=◌, ◌>>◌, ltb, ◌&&◌, if◌then◌else◌,
}
use case_automation_mcp.Json.{Json}
use case_automation_mcp.Orchestrator.States.{
  RunStatus, StepStatus, StepError, WorkflowRun, StepState, GateStatus, GateRequest, Channel,
}
use case_automation_mcp.Orchestrator.Store.{
  Error, key_error, illegal_run, illegal_step, gate, invalid_context, assertion, value_error,
  exhausted, RunStore, or_key_error, get_run, update_run_status, set_current_step, get_steps,
  update_step, create_gate_request, save_token,
}
use case_automation_mcp.Orchestrator.Gates.{Codec, AuditEvent, issue_token}
use case_automation_mcp.Orchestrator.Dsl.{
  Fault, connector, other, store, StepContext, Ran, returned, raised, Handler, GateConfig,
  WorkflowDef, Registry, is_gate, gate_config, get_workflow_latest,
}
use case_automation_mcp.Orchestrator.Idempotency.{
  Recorded, Locks, placeholder, reserve, record_output, lookup_output, acquire, release,
}
pub use case_automation_mcp.Orchestrator.Machine.{Env, Machine}
unfoldable pub use case_automation_mcp.Orchestrator.Machine.{
  max_attempts, Engine, on_store, note, fetch, error_name, classify_error, issue_all, open_gate,
  handle_gate, park,
}

-- the local variables of one call of `_execute` that stay as they are
pub record Pass : Type 0 where
  pub defn : WorkflowDef
  pub now : ℕ
  pub run_id : String
  pub run : WorkflowRun

-- what one pass of the loop carries: the outputs and the compensations
pub record Carry : Type 0 where
  pub outputs : Dict Json
  pub compensations : List String

pub data Next : Type 0 where
  go : Carry → Next
  stop : WorkflowRun → Next

-- how the `try` block ended: the fault, if any, and the local variables
pub record Attempt : Type 0 where
  pub fault : Option Fault
  pub state : StepState
  pub carry : Carry

abbrev caught : Outcome Error Unit → Option Fault
caught (ok _) = none
caught (err e) = some (store e)

-- the end of the `try` block, once the output is recorded
finish_step : ℕ → String → StepState → Carry → Engine Attempt
unfolding note on_store
finish_step now run_id s c m =
    let (r, m1) = on_store (update_step s) m in
    elim r [
      | err e ↦ (ok (record { fault = some (store e); state = s; carry = c }), m1)
      | ok _ ↦
          let (_, m2) = note "step.succeeded" m1 in
          let (r2, m3) = on_store (set_current_step now run_id s.step) m2 in
          (ok (record { fault = caught r2; state = s; carry = c }), m3)
    ]

abbrev pub or_empty : Option Json → Json
or_empty none = placeholder
or_empty (some j) = j

-- the `try` block of a normal step, from what the handler did
after_call : ℕ → String → StepState → Carry → Ran → Engine Attempt
unfolding finish_step
after_call now run_id s c (raised f) m = (ok (record { fault = some f; state = s; carry = c }), m)
after_call now run_id s c (returned o comps) m =
    finish_step now run_id
      (record s {
        status = StepStatus.succeeded;
        output = some (or_empty o);
        ended_at = some now;
        attempt = s.attempt + 1;
      })
      (record {
        outputs = insert s.step (or_empty o) c.outputs;
        compensations = c.compensations ++ comps;
      })
      (record m { idem = record_output s.idem_key (or_empty o) (reserve s.idem_key m.idem).1 })

unfoldable pub attempt_step : Pass → StepState → Carry → Engine Attempt
unfolding after_call
attempt_step p s c m = elim (lookup s.step p.defn.handlers) [
  | none ↦ (ok (record { fault = some (store key_error); state = s; carry = c }), m)
  | some h ↦
      after_call p.now p.run_id s c
        (h
          (record {
            run_id = p.run_id;
            context = p.run.context;
            step_outputs = c.outputs;
            idem_key = s.idem_key;
          })
          m.calls)
        (record m { calls = m.calls + 1 })
]

abbrev failed_state : ℕ → StepError → StepState → StepState
failed_state now e s = record s {
  status = StepStatus.failed;
  error = some e;
  attempt = s.attempt + 1;
  ended_at = some now;
}

-- the end of the `except` block: another round of `execute`, or parking
pub retry_or_park :
    (String → Engine WorkflowRun) → ℕ → String → StepError → StepState → Carry → Engine Next
unfolding on_store park fetch
retry_or_park again now run_id e s c =
    if e.retryable && ltb s.attempt max_attempts
    then (do
      on_store (update_step (record s { status = StepStatus.pending }))
      r ← again run_id
      pure (stop r))
    else (do park now run_id e c.compensations; r ← fetch assertion run_id; pure (stop r))

-- the `except` block, if there was a fault
pub settle : (String → Engine WorkflowRun) → ℕ → String → Attempt → Engine Next
unfolding on_store retry_or_park
settle again now run_id a = elim a.fault [
  | none ↦ pure (go a.carry)
  | some f ↦ do
    on_store (update_step (failed_state now (classify_error f a.state.attempt) a.state))
    retry_or_park again now run_id (classify_error f a.state.attempt)
        (failed_state now (classify_error f a.state.attempt) a.state) a.carry
]

abbrev pub is_finished : StepStatus → Bool
is_finished StepStatus.succeeded = true
is_finished StepStatus.skipped = true
is_finished StepStatus.compensated = true
is_finished _ = false

abbrev add_output : String → Option Json → Carry → Carry
add_output name none c = c
add_output name (some o) c = record c { outputs = insert name o c.outputs }

fresh_step : (String → Engine WorkflowRun) → Pass → StepState → Carry → Engine Next
unfolding on_store
fresh_step again p s c = do
  on_store (update_step (record s { status = StepStatus.running; started_at = some p.now }))
  a ← attempt_step p (record s { status = StepStatus.running; started_at = some p.now }) c
  settle again p.now p.run_id a

-- a step whose output is recorded is not called again
normal_step : (String → Engine WorkflowRun) → Pass → StepState → Carry → Engine Next
unfolding on_store
normal_step again p s c m = elim (lookup_output s.idem_key m.idem) [
  | some o ↦
      (do
        on_store (set_current_step p.now p.run_id s.step)
        pure (go (record c { outputs = insert s.step o c.outputs })))
        m
  | none ↦ fresh_step again p s c m
]

gate_step : Env → Pass → StepState → Engine Next
gate_step env p s = do
  handle_gate env p.now p.run s (gate_config p.defn s.step)
  r ← fetch assertion p.run_id
  pure (stop r)

-- the body of the loop
pub run_step : Env → (String → Engine WorkflowRun) → Pass → StepState → Carry → Engine Next
run_step env again p s c =
    if is_finished s.status
    then pure (go (add_output s.step s.output c))
    else if is_gate s.step
    then gate_step env p s
    else normal_step again p s c

complete : ℕ → String → Engine WorkflowRun
unfolding on_store note fetch
complete now run_id = do
  on_store (update_run_status now run_id RunStatus.succeeded none none)
  note "run.succeeded"
  fetch assertion run_id

-- what follows a step: the rest of the loop, or an early return
abbrev proceed : (Carry → Engine WorkflowRun) → Next → Engine WorkflowRun
proceed rest (go c) = rest c
proceed rest (stop r) = pure r

pub run_steps :
    Env → (String → Engine WorkflowRun) → Pass → List StepState → Carry → Engine WorkflowRun
run_steps env again p [] c = complete p.now p.run_id
run_steps env again p (s ∷ rest) c =
    run_step env again p s c >>= proceed (run_steps env again p rest)

outputs_of : List StepState → Dict Json → Dict Json
outputs_of [] outs = outs
outputs_of (s ∷ rest) outs =
    outputs_of rest (elim s.output [ none ↦ outs | some o ↦ insert s.step o outs ])

abbrev is_queued : RunStatus → Bool
is_queued RunStatus.queued = true
is_queued _ = false

start_running : ℕ → String → WorkflowRun → Engine WorkflowRun
unfolding on_store fetch
start_running now run_id run =
    if is_queued run.status
    then (do
      on_store (update_run_status now run_id RunStatus.running none none)
      fetch assertion run_id)
    else pure run

lift : {A : Type 0} → Outcome Error A → Engine A
lift r m = (r, m)

-- `_execute`
execute_locked : Env → (String → Engine WorkflowRun) → ℕ → String → Engine WorkflowRun
execute_locked env again now run_id = do
  found ← fetch key_error run_id
  run ← start_running now run_id found
  d ← lift (get_workflow_latest run.workflow env.registry)
  (λ m.
      run_steps env again (record { defn = d; now = now; run_id = run_id; run = run })
        (get_steps run_id m.store)
        (record { outputs = outputs_of (get_steps run_id m.store) []; compensations = [] }) m)

-- `finally: release`
releasing : {A : Type 0} → String → Engine A → Engine A
releasing run_id body m = let (r, m') = body m in (r, record m' { locks = release run_id m'.locks })

-- `execute`, with the nested call that a retry makes
pub enter : Env → (String → Engine WorkflowRun) → ℕ → String → Engine WorkflowRun
enter env again now run_id m =
    let (got, locks) = acquire run_id m.locks in
    if got
    then releasing run_id (execute_locked env again now run_id) (record m { locks = locks })
    else fetch key_error run_id m

-- The fuel bounds the nesting of `execute`; without any the model raises `exhausted`.
pub execute : Env → ℕ → ℕ → String → Engine WorkflowRun
execute env now zero run_id m = (err exhausted, m)
execute env now (suc fuel) run_id m = enter env (execute env now fuel) now run_id m
