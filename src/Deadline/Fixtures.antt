-- ===== src/Deadline/Fixtures.antt =====
-- Data for the tests.
use case_automation_mcp.Common.{none, [], true}
use case_automation_mcp.Common.Int.{pos}
use case_automation_mcp.Deadline.Dates.{DateTime}
use case_automation_mcp.Deadline.Types.{
  RuleRef, Offset, no_adjustment, next_business_day, ComputationTrace, DeadlineRule,
}

abbrev pub a_time : DateTime
a_time = record { day = 739801; time = 0 }

abbrev pub a_ref : RuleRef
a_ref = record { rule_id = "r"; rule_version = "v"; jurisdiction = "US"; practice_area = none }

abbrev pub no_offset : Offset
no_offset = record {
  days = pos 0;
  business_days = pos 0;
  weeks = pos 0;
  months = pos 0;
  years = pos 0;
}

abbrev pub a_trace : ComputationTrace
a_trace = record {
  rule_ref = a_ref;
  trigger_field = "filing_date";
  trigger_value = a_time;
  offset = no_offset;
  raw_due = a_time;
  calendar_id = "us_federal";
  calendar_version = "1";
  adjustment = no_adjustment;
  due_at = a_time;
  computed_at = a_time;
}

abbrev pub a_rule : DeadlineRule
a_rule = record {
  rule_id = "r";
  jurisdiction = "US";
  practice_area = none;
  trigger = "filing_date";
  offset = no_offset;
  adjust = next_business_day;
  calendar_id = "us_federal";
  reminders = [];
  escalation = [];
  assumption_unconfirmed = true;
}

-- six months after the filing
abbrev pub six_months : DeadlineRule
six_months = record a_rule { offset = record no_offset { months = pos 6 } }
