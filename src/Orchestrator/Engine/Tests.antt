-- ===== src/Orchestrator/Engine/Tests.antt =====
-- Concrete runs of the engine.
use case_automation_mcp.Common.{
  suc, String, true, false, ◌≡◌, ◌≢◌, refl, some, List, [], ◌∷◌, ◌++◌, Outcome, ok, err, lookup,
  insert, ends_in, arith, reverse,
}
use case_automation_mcp.Json.{num}
use case_automation_mcp.Orchestrator.States.{
  RunStatus, StepStatus, WorkflowRun, StepState, is_legal_run_transition, is_legal_step_transition,
  RunStatus-discrete, StepStatus-discrete,
}
use case_automation_mcp.Orchestrator.Store.{
  Error, illegal_step, RunStore, empty, get_run, get_step, get_steps, update_run_status,
  set_current_step, update_step, create_gate_request, save_token,
}
use case_automation_mcp.Orchestrator.Dsl.{
  Fault, connector, WorkflowDef, returned, is_gate, gate_config,
}
use case_automation_mcp.Orchestrator.Idempotency.{
  placeholder, lookup_output, record_output, reserve,
}
use case_automation_mcp.Orchestrator.Fixtures.{a_run, a_step, a_codec}
use case_automation_mcp.Orchestrator.Engine.{
  Env, Machine, Engine, Pass, Carry, Next, go, stop, Attempt, on_store, note, fetch, classify_error,
  issue_all, open_gate, handle_gate, park, settle, retry_or_park, attempt_step, after_call,
  finish_step, run_step, normal_step, gate_step, run_steps, enter, execute,
}
use case_automation_mcp.Orchestrator.Engine.Retry.{execute-fuel}
use case_automation_mcp.Orchestrator.Engine.Passes.{OpenedFor, Untouched, gate_blocks}
use case_automation_mcp.Orchestrator.Engine.Faults.{
  attempt_step-replayed, retryable_fault_raises, fatal_fault_parks,
}

abbrev a_def : WorkflowDef
a_def = record {
  name = "intake";
  version = 1;
  steps = "parse" ∷ "GATE:review" ∷ "send" ∷ [];
  handlers = ("parse", λ ctx n. returned (some (num n)) ("undo parse" ∷ [])) ∷ [];
  gate_configs = [];
  accepts = λ j. true;
}

abbrev an_env : Env
an_env = record { registry = a_def ∷ []; codec = a_codec; signing_key = "k"; uuid = λ n. "u" }

abbrev a_store : RunStore
a_store = record empty {
  runs = ("r", a_run RunStatus.running) ∷ [];
  steps =
      (
        "r",
        a_step "parse" StepStatus.running
            ∷ a_step "GATE:review" StepStatus.pending
            ∷ a_step "send" StepStatus.pending
            ∷ [],
      )
      ∷ [];
}

abbrev a_machine : Machine
a_machine = record {
  store = a_store;
  idem = ("r:step", num 3) ∷ [];
  locks = some [];
  audit = [];
  calls = 0;
  undone = [];
  supply = 0;
}

abbrev no_nesting : String → Engine WorkflowRun
no_nesting id m = (ok (a_run RunStatus.running), m)

abbrev a_pass : Pass
a_pass = record { defn = a_def; now = 5; run_id = "r"; run = a_run RunStatus.running }

abbrev a_carry : Carry
a_carry = record { outputs = []; compensations = "undo parse" ∷ [] }

abbrev before : List StepState
before = a_step "parse" StepStatus.succeeded ∷ []

abbrev at_gate : Outcome Error WorkflowRun × Machine
at_gate =
    run_steps an_env no_nesting a_pass
      (before ++ a_step "GATE:review" StepStatus.pending ∷ a_step "send" StepStatus.pending ∷ [])
      a_carry a_machine

abbrev waiting_run : WorkflowRun
waiting_run = record (a_run RunStatus.awaiting_approval) { updated_at = 5 }

stopped : at_gate.0 ≡ ok waiting_run
unfolding run_steps run_step gate_step handle_gate open_gate issue_all on_store note fetch get_run
    update_run_status lookup insert create_gate_request save_token is_gate gate_config
    is_legal_run_transition RunStatus-discrete
stopped = refl

gate_blocks_example :
    (waiting_run.status ≡ RunStatus.awaiting_approval)
    × OpenedFor an_env a_pass (a_step "GATE:review" StepStatus.pending) 0 at_gate.1.store
    × Untouched a_machine at_gate.1
unfolding is_gate
gate_blocks_example =
    gate_blocks an_env no_nesting a_pass before (a_step "send" StepStatus.pending ∷ [])
      (a_step "GATE:review" StepStatus.pending) a_carry a_machine at_gate.1 waiting_run (refl, tt)
      refl refl refl (ends_in _ stopped)

abbrev parse_now : StepState
parse_now = a_step "parse" StepStatus.running

-- the attempt on a machine with nothing recorded, and the pass after it
abbrev fresh_machine : Machine
fresh_machine = record a_machine { idem = [] }

abbrev attempted : Machine
attempted = (attempt_step a_pass parse_now a_carry fresh_machine).1

abbrev replay : Outcome Error Next × Machine
replay =
    run_step an_env no_nesting a_pass parse_now a_carry (record a_machine { idem = attempted.idem })

abbrev replayed_to : Carry
replayed_to = record a_carry { outputs = ("parse", num 0) ∷ [] }

replays : replay.0 ≡ ok (go replayed_to)
unfolding run_step normal_step attempt_step after_call finish_step on_store note set_current_step
    update_step get_step get_steps lookup insert is_gate lookup_output record_output reserve
    is_legal_step_transition StepStatus-discrete
replays = refl

not_empty : num 0 ≢ placeholder
not_empty h = cc

attempt_step-replayed_example :
    (go replayed_to ≡ go (record a_carry { outputs = insert "parse" (num 0) [] }))
    × Untouched (record a_machine { idem = attempted.idem }) replay.1
unfolding is_gate lookup
attempt_step-replayed_example =
    attempt_step-replayed an_env no_nesting a_pass a_pass parse_now parse_now a_carry a_carry
      fresh_machine (record a_machine { idem = attempted.idem }) replay.1
      (λ ctx n. returned (some (num n)) ("undo parse" ∷ [])) (some (num 0)) ("undo parse" ∷ [])
      (go replayed_to) refl refl not_empty refl refl refl refl (ends_in _ replays)

abbrev faulty : Fault → Attempt
faulty f = record { fault = some f; state = a_step "parse" StepStatus.running; carry = a_carry }

abbrev timeout : Fault
timeout = connector "TransientError" "timeout" true

abbrev denied : Fault
denied = connector "AuthError" "denied" false

retryable_fault_raises_example :
    ((settle no_nesting 5 "r" (faulty timeout) a_machine).0
      ≡ err (illegal_step StepStatus.failed StepStatus.pending))
    × ((settle no_nesting 5 "r" (faulty timeout) a_machine).1.store.runs ≡ a_machine.store.runs)
    × ((settle no_nesting 5 "r" (faulty timeout) a_machine).1.undone ≡ [])
unfolding get_step get_steps lookup classify_error
retryable_fault_raises_example =
    retryable_fault_raises no_nesting 5 "r" (faulty timeout) a_machine timeout
      (a_step "parse" StepStatus.running) refl refl (omega arith) refl refl

abbrev parking : Outcome Error Next × Machine
parking = settle no_nesting 5 "r" (faulty denied) a_machine

abbrev parked_run : WorkflowRun
parked_run = record (a_run RunStatus.parked) {
  updated_at = 5;
  last_error = some (classify_error denied 0);
}

parks : parking.0 ≡ ok (stop parked_run)
unfolding settle retry_or_park park on_store note fetch get_run update_run_status update_step
    get_step get_steps lookup insert classify_error is_legal_run_transition RunStatus-discrete
    is_legal_step_transition StepStatus-discrete
parks = refl

fatal_fault_parks_example :
    (r : WorkflowRun) × (stop parked_run ≡ stop r)
    × (r.status ≡ RunStatus.parked)
    × (r.last_error ≡ some (classify_error denied 0))
    × (parking.1.undone ≡ [] ++ reverse ("undo parse" ∷ []))
    × (parking.1.calls ≡ 0)
unfolding classify_error
fatal_fault_parks_example =
    fatal_fault_parks no_nesting 5 "r" (faulty denied) a_machine denied parking.1 (stop parked_run)
      refl refl (ends_in _ parks)

execute-fuel_example :
    execute an_env 5 (suc 7) "r" a_machine ≡ enter an_env no_nesting 5 "r" a_machine
execute-fuel_example = execute-fuel an_env 5 7 "r" no_nesting a_machine
