-- ===== src/Deadline/Types.antt =====
-- src/cam/core/services/deadline/types.py. Descriptions and constant fields are left out.
use case_automation_mcp.Common.{ℕ, String, Bool, Option, List}
use case_automation_mcp.Common.Int.{ℤ}
use case_automation_mcp.Deadline.Dates.{DateTime}

pub record RuleRef : Type 0 where
  pub rule_id : String
  pub rule_version : String
  pub jurisdiction : String
  pub practice_area : Option String

pub record Offset : Type 0 where
  pub days : ℤ
  pub business_days : ℤ
  pub weeks : ℤ
  pub months : ℤ
  pub years : ℤ

pub data OffsetUnit : Type 0 where
  in_days : OffsetUnit
  in_business_days : OffsetUnit

pub record ReminderOffset : Type 0 where
  pub amount : ℤ
  pub unit : OffsetUnit
  pub label : Option String

pub data AdjustMode : Type 0 where
  next_business_day : AdjustMode
  previous_business_day : AdjustMode
  no_adjustment : AdjustMode  -- its value "none"

pub data EscalationTrigger : Type 0 where
  reminder_missed : EscalationTrigger
  approaching : EscalationTrigger
  after_due : EscalationTrigger

pub record EscalationLevel : Type 0 where
  pub trigger : EscalationTrigger
  pub after : Option ReminderOffset
  pub recipients : List String

pub record DeadlineRule : Type 0 where
  pub rule_id : String
  pub jurisdiction : String
  pub practice_area : Option String
  pub trigger : String
  pub offset : Offset
  pub adjust : AdjustMode
  pub calendar_id : String
  pub reminders : List ReminderOffset
  pub escalation : List EscalationLevel
  pub assumption_unconfirmed : Bool

pub record ComputationTrace : Type 0 where
  pub rule_ref : RuleRef
  pub trigger_field : String
  pub trigger_value : DateTime
  pub offset : Offset
  pub raw_due : DateTime
  pub calendar_id : String
  pub calendar_version : String
  pub adjustment : AdjustMode
  pub due_at : DateTime
  pub computed_at : DateTime

pub data ReminderStatus : Type 0 where
  armed : ReminderStatus
  fired : ReminderStatus
  missed : ReminderStatus
  skipped_past : ReminderStatus

pub record ScheduledReminder : Type 0 where
  pub id : String
  pub deadline_id : String
  pub fire_at : DateTime
  pub offset : ReminderOffset
  pub status : ReminderStatus
  pub idempotency_key : String
  pub redundant_arm_ids : List String

pub record ScheduledDeadline : Type 0 where
  pub deadline_id : String
  pub matter_id : String
  pub rule_ref : RuleRef
  pub trace : ComputationTrace
  pub reminders : List ScheduledReminder
  pub flagged_past_due_on_create : Bool
  pub idempotency_key : String
  pub escalation_level : ℕ

pub data DriftKind : Type 0 where
  missing_in_engine : DriftKind
  missing_in_case : DriftKind
  divergent_due_at : DriftKind

pub record Drift : Type 0 where
  pub matter_id : String
  pub deadline_id : Option String
  pub kind : DriftKind
  pub detected_at : DateTime
