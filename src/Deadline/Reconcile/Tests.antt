-- ===== src/Deadline/Reconcile/Tests.antt =====
-- A reconciliation.
use case_automation_mcp.Common.{
  ◌≡◌, ◌↔◌, false, refl, some, List, [], ◌∷◌, All, map, insert, values,
}
use case_automation_mcp.Deadline.Types.{missing_in_case, missing_in_engine}
use case_automation_mcp.Deadline.Fixtures.{a_time, a_ref, a_trace}
use case_automation_mcp.Deadline.Schedule.{Engine, list_for_matter}
use case_automation_mcp.Deadline.Reconcile.{
  CaseDeadline, reconcile, engine_deadlines, engine_side, case_side, compared, case_drift,
  find_case, in_engine,
}
use case_automation_mcp.Deadline.Reconcile.Drifts.{Covered, Tracked, reconcile_iff}

abbrev an_engine : Engine
an_engine = record {
  deadlines =
      (
        "d1",
        record {
          deadline_id = "d1";
          matter_id = "m1";
          rule_ref = a_ref;
          trace = a_trace;
          reminders = [];
          flagged_past_due_on_create = false;
          idempotency_key = "";
          escalation_level = 0;
        },
      )
      ∷ [];
  by_idem = [];
  arms = [];
  drawn = 0;
}

abbrev other_rule : List CaseDeadline
other_rule = record { rule_id = some "s"; due_at = a_time } ∷ []

both_ways :
    map (λ f. f.kind) (reconcile "m1" a_time an_engine (some other_rule)).0
    ≡ missing_in_case ∷ missing_in_engine ∷ []
unfolding reconcile engine_deadlines engine_side case_side compared case_drift find_case in_engine
    list_for_matter insert values
both_ways = refl

reconcile_iff_example : ((reconcile "m1" a_time an_engine (some other_rule)).0 ≡ []) ↔ (
    All (Covered other_rule) (engine_deadlines "m1" an_engine)
    × All (λ d. Tracked (engine_deadlines "m1" an_engine) d.rule_id) other_rule)
reconcile_iff_example = reconcile_iff "m1" a_time an_engine other_rule
