-- ===== src/Deadline/Schedule/Tests.antt =====
-- A deadline that is past when it is scheduled.
use case_automation_mcp.Common.{◌≡◌, ◌⊎◌, refl, [], ◌∷◌, lookup, Outcome, ok, err, ends_in}
use case_automation_mcp.Common.Int.{times}
use case_automation_mcp.Deadline.Dates.{
  DateTime, date, make_date, year_of, year_from, month_of, day_of, weekday, before,
  days_before_year, days_before_month, days_in_month, is_leap,
}
use case_automation_mcp.Deadline.Types.{ScheduledDeadline}
use case_automation_mcp.Deadline.Calendar.{
  adjust, next_business_day_of, is_business_day, get_calendar,
}
use case_automation_mcp.Deadline.Compute.{
  ComputeError, compute_due_date, computed_from, apply_offset,
}
use case_automation_mcp.Deadline.Fixtures.{a_time, a_ref, a_rule}
use case_automation_mcp.Deadline.Schedule.{
  World, Engine, Order, ScheduleError, past_due, not_computed, tool_deadline_schedule, get_by_idem,
  computed,
}
use case_automation_mcp.Deadline.Schedule.Once.{Tells, schedule_once}

abbrev a_world : World
a_world = record { uuid = λ n. "u"; spell = λ z. "0"; calendar_version = "1" }

abbrev an_order : Order
an_order = record {
  matter_id = "m1";
  rule = a_rule;
  trigger_inputs = ("filing_date", a_time) ∷ [];
  rule_ref = a_ref;
  idempotency_key = "i1";
}

abbrev later : DateTime
later = record { day = 740000; time = 0 }

abbrev an_engine : Engine
an_engine = record { deadlines = []; by_idem = []; arms = []; drawn = 0 }

-- the first call raises, with the due date moved from a Saturday to the Monday
refused :
    (tool_deadline_schedule a_world an_order later an_engine).0
    ≡ err (past_due (record { day = 739803; time = 0 }))
unfolding tool_deadline_schedule get_by_idem lookup computed compute_due_date computed_from
    apply_offset get_calendar adjust next_business_day_of is_business_day before date make_date
    year_of year_from month_of day_of weekday days_before_year days_before_month days_in_month
    is_leap times
refused = refl

abbrev raised : Outcome ScheduleError ScheduledDeadline
raised = err (past_due (record { day = 739803; time = 0 }))

schedule_once_example :
    ((sd : ScheduledDeadline) × Tells sd raised
      × (tool_deadline_schedule a_world an_order later
            (tool_deadline_schedule a_world an_order later an_engine).1
          ≡ (ok sd, (tool_deadline_schedule a_world an_order later an_engine).1)))
    ⊎ ((e : ComputeError) × (raised ≡ err (not_computed e)))
schedule_once_example =
    schedule_once a_world a_world an_order an_order later later an_engine
      (tool_deadline_schedule a_world an_order later an_engine).1 raised refl (λ n. refl) refl
      (ends_in _ refused)
