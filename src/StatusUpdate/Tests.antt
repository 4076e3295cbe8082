-- ===== src/StatusUpdate/Tests.antt =====
-- A change whose event comes twice.
use case_automation_mcp.Common.{
  true, ◌≡◌, refl, Option, none, some, [], ◌∷◌, Outcome, ok, ends_in, lookup, if◌then◌else◌,
}
use case_automation_mcp.Json.{null}
use case_automation_mcp.Orchestrator.States.{RunStatus}
use case_automation_mcp.Orchestrator.Store.{Error, RunStore, empty, create_run, bound_run}
use case_automation_mcp.Orchestrator.Store.Laws.{start}
use case_automation_mcp.Orchestrator.Dsl.{WorkflowDef, get_workflow_latest}
use case_automation_mcp.Orchestrator.Triggers.{
  start_run, start_valid, start_defined, keyed, dedupe_key_of,
}
use case_automation_mcp.StatusUpdate.{
  World, StatusUpdateConfig, StatusStore, Change, Answer, noop, started, handle_status_change_event,
  start_update, start_of, answer_of, webhook_change_id, derive_change_id, should_trigger,
  is_delivered, update_last_status,
}
use case_automation_mcp.StatusUpdate.Steps.{Office, sent, record_outcome}
use case_automation_mcp.StatusUpdate.Once.{handle_status_change_event_once, NoOther}
use case_automation_mcp.StatusUpdate.Sealed.{Calls, record_outcome-seals}

abbrev a_def : WorkflowDef
a_def = record {
  name = "status_update_email";
  version = 1;
  steps = "detect_change" ∷ [];
  handlers = [];
  gate_configs = [];
  accepts = λ j. true;
}

abbrev a_world : World
a_world = record {
  sha256 = λ s n. s;
  decimal = λ n. "1";
  dump = λ d. null;
  registry = a_def ∷ [];
  matter_status = λ m. some "filed";
  mailer = λ n draft key. some "mail1";
}

abbrev a_config : StatusUpdateConfig
a_config = record { trigger_allow_list = "filed" ∷ []; suppress_reverts = true }

abbrev a_store : StatusStore
a_store = record { last_status = []; transition_counters = []; delivered = [] }

abbrev a_change : Change
a_change = record {
  matter_id = "m1";
  from_status = "open";
  to_status = "filed";
  provider_event_id = "e1";
}

abbrev first : Outcome Error (Option Answer) × RunStore
first = handle_status_change_event a_world a_config a_store 5 "r1" a_change empty

started_r1 : first.0 ≡ ok (some (started "r1" RunStatus.queued "m1:open:filed:e1"))
unfolding handle_status_change_event start_update start_of answer_of webhook_change_id
    derive_change_id should_trigger is_delivered start_run start_valid start_defined create_run
    bound_run lookup get_workflow_latest keyed dedupe_key_of
started_r1 = refl

handle_status_change_event_once_example :
    (o : Option Answer) × (handle_status_change_event a_world a_config a_store 6 "r2" a_change
        first.1
      ≡ (ok o, first.1))
    × NoOther "r1" o
unfolding webhook_change_id derive_change_id get_workflow_latest
handle_status_change_event_once_example =
    handle_status_change_event_once a_world a_config a_config a_store a_store 5 6 "r1" "r2" a_change
      a_def empty first.1 first.1 "r1" "m1:open:filed:e1" RunStatus.queued refl refl refl
      (ends_in _ started_r1) start

abbrev an_office : Office
an_office = record { status = a_store; asked = [] }

record_outcome-seals_example :
    handle_status_change_event a_world a_config
      (update_last_status "m1" "filed"
        (record_outcome (webhook_change_id a_world a_change) "r1" (sent "mail1") an_office).status)
      7
      "r3"
      a_change
      empty
    ≡ (
      ok (
          if should_trigger "filed" a_config
          then some (noop (webhook_change_id a_world a_change))
          else none),
      empty,
    )
record_outcome-seals_example =
    record_outcome-seals a_world a_config 7 "r3" "r1" "mail1" a_change an_office
      (update_last_status "m1" "filed"
        (record_outcome (webhook_change_id a_world a_change) "r1" (sent "mail1") an_office).status)
      empty (Calls.update "m1" "filed" Calls.start)
