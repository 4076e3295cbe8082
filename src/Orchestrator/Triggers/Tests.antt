-- ===== src/Orchestrator/Triggers/Tests.antt =====
-- A trigger that comes twice.
use case_automation_mcp.Common.{true, ◌≡◌, refl, none, [], ◌∷◌, Outcome, ok, ends_in, lookup}
use case_automation_mcp.Json.{null}
use case_automation_mcp.Orchestrator.States.{WorkflowRun}
use case_automation_mcp.Orchestrator.Store.{Error, RunStore, empty, create_run, bound_run}
use case_automation_mcp.Orchestrator.Store.Laws.{start, Evolves}
use case_automation_mcp.Orchestrator.Dsl.{WorkflowDef, get_workflow_latest}
use case_automation_mcp.Orchestrator.Triggers.{
  Start, start_run, start_valid, start_defined, new_run, keyed, dedupe_key_of, make_event_trigger,
}
use case_automation_mcp.Orchestrator.Triggers.Once.{start_run_once}

abbrev a_def : WorkflowDef
a_def = record {
  name = "intake";
  version = 2;
  steps = "parse" ∷ [];
  handlers = [];
  gate_configs = [];
  accepts = λ j. true;
}

abbrev a_start : Start
a_start = record {
  workflow = "intake";
  context = null;
  trigger = make_event_trigger "e1" "webhook";
  idem_key = none;
  run_id = none;
}

abbrev first : Outcome Error WorkflowRun × RunStore
first = start_run (a_def ∷ []) 5 "r1" a_start empty

abbrev the_run : WorkflowRun
the_run = new_run 5 "r1" a_def "intake" null (make_event_trigger "e1" "webhook")

started : first.0 ≡ ok the_run
unfolding start_run start_valid start_defined create_run bound_run lookup get_workflow_latest keyed
    dedupe_key_of
started = refl

start_run_once_example :
    (r : WorkflowRun) × (start_run (a_def ∷ []) 6 "r2" a_start first.1 ≡ (ok r, first.1))
    × Evolves the_run r
unfolding get_workflow_latest dedupe_key_of
start_run_once_example =
    start_run_once (a_def ∷ []) (a_def ∷ []) 5 6 "r1" "r2" a_start a_start a_def empty first.1
      first.1 "e1" the_run refl refl refl refl (ends_in _ started) start
