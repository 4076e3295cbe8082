-- ===== src/Deadline/Compute.antt =====
-- src/cam/core/services/deadline/compute.py
use case_automation_mcp.Common.{
  ℕ, zero, suc, ◌+◌, ◌-◌, ◌*◌, ◌/◌, ◌%◌, String, Bool, true, false, not, ◌&&◌, Option, none, some,
  List, [], ◌∷◌, Dict, lookup, leb, Outcome, ok, err, if◌then◌else◌,
}
use case_automation_mcp.Common.Int.{ℤ, pos, negsuc, shift, times}
use case_automation_mcp.Deadline.Dates.{
  max_ordinal, make_date, year_of, month_of, day_of, DateTime, before,
}
use case_automation_mcp.Deadline.Types.{
  RuleRef, Offset, OffsetUnit, in_days, in_business_days, ReminderOffset, AdjustMode, DeadlineRule,
  ComputationTrace,
}
use case_automation_mcp.Deadline.Calendar.{DateError, add_business_days, adjust, get_calendar}
pub mod Landing
mod Tests

-- `MissingTriggerError`, what the calendar raises, `ValueError` and `OverflowError`
pub data ComputeError : Type 0 where
  missing_trigger : String → ComputeError
  calendar : DateError → ComputeError
  no_such_date : ComputeError
  out_of_range : ComputeError

abbrev pub then_do :
    {A B : Type 0} → Outcome ComputeError A → (A → Outcome ComputeError B) → Outcome ComputeError B
then_do (err e) f = err e
then_do (ok a) f = f a

abbrev pub of_calendar : {A : Type 0} → Outcome DateError A → Outcome ComputeError A
of_calendar (err e) = err (calendar e)
of_calendar (ok a) = ok a

abbrev pub is_zero : ℤ → Bool
is_zero (pos zero) = true
is_zero _ = false

-- `replace` with the day kept, else with day 28
replaced : ℕ → ℕ → ℕ → Outcome ComputeError ℕ
replaced y m d = elim (make_date y m d) [
  | some x ↦ ok x
  | none ↦ elim (make_date y m 28) [ some x ↦ ok x | none ↦ err no_such_date ]
]

add_years : ℤ → ℕ → Outcome ComputeError ℕ
unfolding replaced
add_years k d = if is_zero k then ok d else elim (shift (year_of d) k) [
  | none ↦ err no_such_date
  | some y ↦ replaced y (month_of d) (day_of d)
]

-- months are counted from the start of year 0
add_months : ℤ → ℕ → Outcome ComputeError ℕ
unfolding replaced
add_months k d = if is_zero k then ok d else elim (shift (year_of d * 12 + (month_of d - 1)) k) [
  | none ↦ err no_such_date
  | some t ↦ replaced (t / 12) (t % 12 + 1) (day_of d)
]

-- `+= timedelta(days=k)`
add_days : ℤ → ℕ → Outcome ComputeError ℕ
add_days k d = if is_zero k then ok d else elim (shift d k) [
  | none ↦ err out_of_range
  | some x ↦ if leb x max_ordinal then ok x else err out_of_range
]

work_days : ℤ → ℕ → Outcome ComputeError ℕ
work_days k d = if is_zero k then ok d else of_calendar (add_business_days d k)

-- `_apply_offset`, which keeps the time of the day
unfoldable pub apply_offset : ℕ → Offset → Outcome ComputeError ℕ
unfolding add_years add_months add_days work_days
apply_offset base o =
    then_do
      (then_do
        (then_do (then_do (add_years o.years base) (add_months o.months))
          (add_days (times 7 o.weeks)))
        (add_days o.days))
      (work_days o.business_days)

-- `rule_ref or RuleRef(...)`
abbrev or_unknown : Option RuleRef → DeadlineRule → RuleRef
or_unknown (some r) rule = r
or_unknown none rule = record {
  rule_id = rule.rule_id;
  rule_version = "unknown";
  jurisdiction = rule.jurisdiction;
  practice_area = none;
}

-- `cal.version()` is an argument
pub trace_of :
    String → DeadlineRule → Option RuleRef → DateTime → DateTime → ℕ → ℕ → ComputationTrace
trace_of version rule rule_ref as_of start raw adjusted = record {
  rule_ref = or_unknown rule_ref rule;
  trigger_field = rule.trigger;
  trigger_value = start;
  offset = rule.offset;
  raw_due = record { day = raw; time = start.time };
  calendar_id = rule.calendar_id;
  calendar_version = version;
  adjustment = rule.adjust;
  due_at = record { day = adjusted; time = start.time };
  computed_at = as_of;
}

unfoldable pub computed_from :
    String
    → DeadlineRule
    → Option RuleRef
    → DateTime
    → Option DateTime
    → Outcome ComputeError ComputationTrace
unfolding trace_of
computed_from version rule rule_ref as_of none = err (missing_trigger rule.trigger)
computed_from version rule rule_ref as_of (some start) =
    then_do (of_calendar (get_calendar rule.calendar_id)) (λ _.
      then_do (apply_offset start.day rule.offset) (λ raw.
        then_do (of_calendar (adjust raw rule.adjust))
          (λ adjusted. ok (trace_of version rule rule_ref as_of start raw adjusted))))

unfoldable pub compute_due_date :
    String
    → DeadlineRule
    → Dict DateTime
    → DateTime
    → Option RuleRef
    → Outcome ComputeError ComputationTrace
compute_due_date version rule trigger_inputs as_of rule_ref =
    computed_from version rule rule_ref as_of (lookup rule.trigger trigger_inputs)

reminder_day : ReminderOffset → ℕ → Outcome ComputeError ℕ
unfolding add_days
reminder_day r due = elim r.unit [
  | in_business_days ↦ of_calendar (add_business_days due r.amount)
  | in_days ↦ add_days r.amount due
]

unfoldable pub reminder_at : ReminderOffset → DateTime → Outcome ComputeError DateTime
unfolding reminder_day
reminder_at r due = then_do (reminder_day r due.day) (λ d. ok (record { day = d; time = due.time }))

pub record Preview : Type 0 where
  pub offset : ReminderOffset
  pub fire_at : DateTime
  pub before_due : Bool

pub preview_all : List ReminderOffset → DateTime → Outcome ComputeError (List Preview)
preview_all [] due = ok []
preview_all (r ∷ rs) due =
    let later = preview_all rs due in
    then_do (reminder_at r due) (λ at_day.
      then_do later
        (λ ps. ok (record { offset = r; fire_at = at_day; before_due = before at_day due } ∷ ps)))

pub preview_reminders : DeadlineRule → DateTime → Outcome ComputeError (List Preview)
unfolding preview_all
preview_reminders rule due =
    then_do (of_calendar (get_calendar rule.calendar_id)) (λ _. preview_all rule.reminders due)

pub record Computation : Type 0 where
  pub due_at : DateTime
  pub trace : ComputationTrace
  pub reminders_preview : List Preview
  pub past_due_flag : Bool

-- `tool_deadline_compute`; the audit call, which may fail and is swallowed, is left out
pub tool_deadline_compute :
    String
    → DeadlineRule
    → Dict DateTime
    → Option RuleRef
    → DateTime
    → Outcome ComputeError Computation
tool_deadline_compute version rule trigger_inputs rule_ref now =
    then_do (compute_due_date version rule trigger_inputs now rule_ref) (λ trace.
      then_do (preview_reminders rule trace.due_at) (λ previews. ok (record {
        due_at = trace.due_at;
        trace = trace;
        reminders_preview = previews;
        past_due_flag = before trace.due_at now;
      })))
