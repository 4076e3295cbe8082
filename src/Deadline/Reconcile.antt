-- ===== src/Deadline/Reconcile.antt =====
-- src/cam/core/services/deadline/reconcile.py and deadman.py. What the case system answers is an
-- argument: its deadlines, or `none` where it raises. Details, logs and audit calls are left out.
use case_automation_mcp.Common.{
  ℕ, ◌+◌, ◌-◌, ◌*◌, String, Bool, true, false, not, ◌&&◌, Option, none, some, List, [], ◌∷◌, ◌++◌,
  any, map, Dict, insert, values, truthy, ltb, ◌==◌, if◌then◌else◌,
}
use case_automation_mcp.Deadline.Dates.{DateTime}
use case_automation_mcp.Deadline.Types.{
  ScheduledDeadline, DriftKind, missing_in_engine, missing_in_case, divergent_due_at, Drift,
}
use case_automation_mcp.Deadline.Schedule.{Engine, list_for_matter}
pub mod Drifts
mod Tests

pub record CaseDeadline : Type 0 where
  pub rule_id : Option String
  pub due_at : DateTime

-- microseconds from the first date
unfoldable pub instant : DateTime → ℕ
instant t = t.day * 86400000000 + t.time

-- whether two times lie more than a day apart
pub far_apart : DateTime → DateTime → Bool
unfolding instant
far_apart a b = ltb 86400000000 ((instant a - instant b) + (instant b - instant a))

-- `{sd.deadline_id: sd for sd in ...}.values()`
by_id : List ScheduledDeadline → Dict ScheduledDeadline → Dict ScheduledDeadline
by_id [] d = d
by_id (sd ∷ l) d = by_id l (insert sd.deadline_id sd d)

pub engine_deadlines : String → Engine → List ScheduledDeadline
unfolding by_id
engine_deadlines matter_id g = values (by_id (list_for_matter matter_id g) [])

abbrev pub has_rule : String → CaseDeadline → Bool
has_rule id d = elim d.rule_id [ some r ↦ r == id | none ↦ false ]

-- the first deadline of the case system with that rule
pub find_case : String → List CaseDeadline → Option CaseDeadline
find_case id [] = none
find_case id (d ∷ l) = let later = find_case id l in if has_rule id d then some d else later

drift : String → Option String → DriftKind → DateTime → Drift
drift matter_id deadline_id kind now = record {
  matter_id = matter_id;
  deadline_id = deadline_id;
  kind = kind;
  detected_at = now;
}

pub compared : String → DateTime → ScheduledDeadline → Option CaseDeadline → List Drift
unfolding drift
compared matter_id now sd none = drift matter_id (some sd.deadline_id) missing_in_case now ∷ []
compared matter_id now sd (some d) =
    if far_apart d.due_at sd.trace.due_at
    then drift matter_id (some sd.deadline_id) divergent_due_at now ∷ []
    else []

pub engine_side : String → DateTime → List CaseDeadline → List ScheduledDeadline → List Drift
engine_side matter_id now cases [] = []
engine_side matter_id now cases (sd ∷ l) =
    compared matter_id now sd (find_case sd.rule_ref.rule_id cases)
    ++ engine_side matter_id now cases l

pub in_engine : String → List ScheduledDeadline → Bool
in_engine id l = any (λ sd. sd.rule_ref.rule_id == id) l

pub case_drift : String → DateTime → List ScheduledDeadline → Option String → List Drift
unfolding drift
case_drift matter_id now l none = []
case_drift matter_id now l (some id) =
    if not (in_engine id l) && truthy id
    then drift matter_id none missing_in_engine now ∷ []
    else []

pub case_side : String → DateTime → List ScheduledDeadline → List CaseDeadline → List Drift
case_side matter_id now l [] = []
case_side matter_id now l (d ∷ cases) =
    case_drift matter_id now l d.rule_id ++ case_side matter_id now l cases

-- the calls of `alert_fn`, if there is one
pub data Alert : Type 0 where
  connector_error : String → Alert
  drift_found : DriftKind → String → Alert

abbrev alert_of : String → Drift → Alert
alert_of matter_id f = drift_found f.kind matter_id

pub reconcile : String → DateTime → Engine → Option (List CaseDeadline) → List Drift × List Alert
reconcile matter_id now g none = ([], connector_error matter_id ∷ [])
reconcile matter_id now g (some cases) =
    let found =
      engine_side matter_id now cases (engine_deadlines matter_id g)
      ++ case_side matter_id now (engine_deadlines matter_id g) cases in
    (found, map (alert_of matter_id) found)

-- `DeadmanMonitor.check_once` at a time in microseconds, with the threshold: whether the scheduler is
-- healthy, and the age that is alerted. The heartbeat is `none` where it raises, and the age is then -1.
pub data StaleAge : Type 0 where
  stale : ℕ → StaleAge
  no_heartbeat : StaleAge

pub check_once : ℕ → ℕ → Option ℕ → Bool × List StaleAge
check_once now threshold none = (false, no_heartbeat ∷ [])
check_once now threshold (some last_beat) =
    if ltb threshold (now - last_beat) then (false, stale (now - last_beat) ∷ []) else (true, [])
