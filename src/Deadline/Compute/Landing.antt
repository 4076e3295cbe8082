-- ===== src/Deadline/Compute/Landing.antt =====
-- Where due dates fall.
use case_automation_mcp.Common.{
  ℕ, ◌+◌, ◌≤◌, ◌<◌, String, true, ◌≡◌, refl, ap, ◌∙◌, ◌⊎◌, inl, inr, Option, some, Dict, lookup, ok,
  arith,
}
use case_automation_mcp.Deadline.Dates.{DateTime, date}
use case_automation_mcp.Deadline.Types.{
  AdjustMode, next_business_day, previous_business_day, no_adjustment, RuleRef, DeadlineRule,
  ComputationTrace,
}
use case_automation_mcp.Deadline.Calendar.{is_business_day, adjust, get_calendar}
use case_automation_mcp.Deadline.Calendar.Walks.{IsNext}
use case_automation_mcp.Deadline.Calendar.Bounds.{Adjusted, adjust-Adjusted}
use case_automation_mcp.Deadline.Compute.{apply_offset, computed_from, compute_due_date, trace_of}

-- at most 4 days from `raw`, and a business day if an adjustment is asked
abbrev pub Lands : AdjustMode → ℕ → ℕ → Type 0
Lands mode raw e =
    (raw ≤ e + 4) × (e ≤ raw + 4) × ((mode ≡ no_adjustment) ⊎ (is_business_day e ≡ ok true))

adjust-Lands :
    (mode : AdjustMode) (raw : ℕ)
    → date 2020 1 3 ≤ raw
    → raw ≤ date 2040 12 30
    → (e : ℕ) × (adjust raw mode ≡ ok e) × Lands mode raw e
adjust-Lands next_business_day raw low high =
    let (e, is, how) = (adjust-Adjusted raw low high).0 in (e, is, later e how)
  where
    later : (e : ℕ) → Adjusted raw e (IsNext raw e × (e ≤ raw + 4)) → Lands next_business_day raw e
    later e (inl (works, same)) = (omega (arith, same), omega (arith, same), inr (rw same works))
    later e (inr (off, ((k, e_is, works, none_between), near))) =
        (omega (arith, e_is), near, inr works)
adjust-Lands previous_business_day raw low high =
    let (e, is, how) = (adjust-Adjusted raw low high).1 in (e, is, sooner e how)
  where
    sooner :
        (e : ℕ)
        → Adjusted raw e ((is_business_day e ≡ ok true) × (e < raw) × (raw ≤ e + 4))
        → Lands previous_business_day raw e
    sooner e (inl (works, same)) = (omega (arith, same), omega (arith, same), inr (rw same works))
    sooner e (inr (off, (works, before, near))) = (near, omega (arith, before), inr works)
adjust-Lands no_adjustment raw low high =
    (raw, (adjust-Adjusted raw low high).2, (omega arith, omega arith, inl refl))

get_calendar_federal : (id : String) → id ≡ "us_federal" → get_calendar id ≡ ok tt
unfolding get_calendar
get_calendar_federal id h = rw h refl

computed_from-adjusted :
    (version : String) (rule : DeadlineRule) (ref : Option RuleRef) (as_of start : DateTime)
    (raw e : ℕ)
    → rule.calendar_id ≡ "us_federal"
    → apply_offset start.day rule.offset ≡ ok raw
    → adjust raw rule.adjust ≡ ok e
    → computed_from version rule ref as_of (some start)
      ≡ ok (trace_of version rule ref as_of start raw e)
unfolding computed_from
computed_from-adjusted version rule ref as_of start raw e cal off adj =
    rw (get_calendar_federal rule.calendar_id cal) (rw off (rw adj refl))

-- A due date is computed where the trigger is given, the calendar is the federal one and the offset
-- leads to a day from 3 January 2020 to 30 December 2040. It is that day as the mode of the rule
-- adjusts it, at the time of day of the trigger. It lies at most 4 days from there, and on a business
-- day unless the rule asks for no adjustment.
pub compute_due_date-Lands :
    (version : String) (rule : DeadlineRule) (inputs : Dict DateTime) (as_of : DateTime)
    (ref : Option RuleRef) (start : DateTime) (raw : ℕ)
    → lookup rule.trigger inputs ≡ some start
    → rule.calendar_id ≡ "us_federal"
    → apply_offset start.day rule.offset ≡ ok raw
    → date 2020 1 3 ≤ raw
    → raw ≤ date 2040 12 30
    → (t : ComputationTrace) × (compute_due_date version rule inputs as_of ref ≡ ok t)
      × (t.due_at.time ≡ start.time)
      × (adjust raw rule.adjust ≡ ok t.due_at.day)
      × Lands rule.adjust raw t.due_at.day
unfolding compute_due_date trace_of
compute_due_date-Lands version rule inputs as_of ref start raw given cal off low high =
    let (e, adj, lands) = adjust-Lands rule.adjust raw low high in
    (
      trace_of version rule ref as_of start raw e,
      ap (computed_from version rule ref as_of) given
          ∙ computed_from-adjusted version rule ref as_of start raw e cal off adj,
      refl,
      adj,
      lands,
    )
