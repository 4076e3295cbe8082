-- ===== src/Orchestrator/Triggers.antt =====
-- src/cam/core/orchestrator/triggers.py: `start_run`. The fresh uuid is an argument.
use Prim.Native.String
use case_automation_mcp.Common.{
  ℕ, zero, suc, ◌+◌, String, Bool, true, false, Option, none, some, List, [], ◌∷◌, Outcome, ok, err,
  Exec, truthy, if◌then◌else◌,
}
use case_automation_mcp.Json.{Json}
use case_automation_mcp.Orchestrator.States.{
  RunStatus, StepStatus, TriggerKind, event, schedule, agent, TriggerRef, WorkflowRun, StepState,
}
use case_automation_mcp.Orchestrator.Store.{Error, invalid_context, RunStore, create_run, given}
use case_automation_mcp.Orchestrator.Dsl.{WorkflowDef, Registry, get_workflow_latest}
pub mod Once
mod Tests

-- `idem_key or trigger.dedupe_key`
unfoldable pub dedupe_key_of : Option String → TriggerRef → Option String
dedupe_key_of idem_key t = elim (given idem_key) [ some k ↦ some k | none ↦ t.dedupe_key ]

-- the copy of the trigger with that key, where it is not empty
unfoldable pub keyed : Option String → TriggerRef → TriggerRef
keyed idem_key t = elim (given (dedupe_key_of idem_key t)) [
  | some k ↦ record t { dedupe_key = some k }
  | none ↦ t
]

-- `run_id or str(uuid4())`
abbrev or_fresh : Option String → String → String
or_fresh none fresh = fresh
or_fresh (some id) fresh = if truthy id then id else fresh

-- a pending state for each step, numbered from `seq`
fan_out : String → ℕ → List String → List StepState
fan_out run_id seq [] = []
fan_out run_id seq (step ∷ steps) =
    record {
      run_id = run_id;
      step = step;
      seq = seq;
      status = StepStatus.pending;
      attempt = 0;
      idem_key = String.◌++◌ run_id (String.◌++◌ ":" step);
      started_at = none;
      ended_at = none;
      error = none;
      input = none;
      output = none;
    }
    ∷ fan_out run_id (seq + 1) steps

new_run : ℕ → String → WorkflowDef → String → Json → TriggerRef → WorkflowRun
new_run now run_id d name context trigger = record {
  id = run_id;
  workflow = name;
  workflow_version = d.version;
  status = RunStatus.queued;
  current_step = none;
  trigger = trigger;
  context = context;
  created_at = now;
  updated_at = now;
  last_error = none;
}

pub record Start : Type 0 where
  pub workflow : String
  pub context : Json
  pub trigger : TriggerRef
  pub idem_key : Option String
  pub run_id : Option String

unfoldable pub start_defined : ℕ → String → Start → WorkflowDef → Exec Error RunStore WorkflowRun
unfolding fan_out new_run
start_defined now fresh s d =
    create_run
      (new_run now (or_fresh s.run_id fresh) d s.workflow s.context (keyed s.idem_key s.trigger))
      (fan_out (or_fresh s.run_id fresh) 0 d.steps)

unfoldable pub start_valid :
    ℕ → String → Start → Outcome Error WorkflowDef → Exec Error RunStore WorkflowRun
start_valid now fresh s (err e) st = (err e, st)
start_valid now fresh s (ok d) st =
    if d.accepts s.context then start_defined now fresh s d st else (err invalid_context, st)

unfoldable pub start_run : Registry → ℕ → String → Start → Exec Error RunStore WorkflowRun
start_run registry now fresh s = start_valid now fresh s (get_workflow_latest s.workflow registry)

abbrev pub make_event_trigger : String → String → TriggerRef
make_event_trigger event_id source = record {
  kind = event;
  source = source;
  dedupe_key = some event_id;
}

abbrev pub make_schedule_trigger : String → TriggerRef
make_schedule_trigger schedule_id = record {
  kind = schedule;
  source = schedule_id;
  dedupe_key = none;
}

abbrev pub make_agent_trigger : String → Option String → TriggerRef
make_agent_trigger identity idem_key = record {
  kind = agent;
  source = identity;
  dedupe_key = idem_key;
}
