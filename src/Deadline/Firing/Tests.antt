-- ===== src/Deadline/Firing/Tests.antt =====
-- A reminder that two arms fire.
use case_automation_mcp.Common.{
  true, false, ◌≡◌, refl, inl, inr, none, some, [], ◌∷◌, ◌==◌, eq_iff, ok, err, ends_in, Bool-cases,
  lookup, subst,
}
use case_automation_mcp.Common.Int.{negsuc}
use case_automation_mcp.Deadline.Types.{in_days, armed, ScheduledReminder, ScheduledDeadline}
use case_automation_mcp.Deadline.Fixtures.{a_time, a_ref, a_trace}
use case_automation_mcp.Deadline.Schedule.{get}
use case_automation_mcp.Deadline.Firing.{
  Desk, delivery_failed, fire_reminder, find_reminder, dispatch, notify, mark_done,
}
use case_automation_mcp.Deadline.Firing.Once.{Keyed, start, finish, fire_reminder_once}

abbrev a_reminder : ScheduledReminder
a_reminder = record {
  id = "u1";
  deadline_id = "d1";
  fire_at = a_time;
  offset = record { amount = negsuc 0; unit = in_days; label = none };
  status = armed;
  idempotency_key = "k1";
  redundant_arm_ids = "a1" ∷ "a2" ∷ [];
}

abbrev a_deadline : ScheduledDeadline
a_deadline = record {
  deadline_id = "d1";
  matter_id = "m1";
  rule_ref = a_ref;
  trace = a_trace;
  reminders = a_reminder ∷ [];
  flagged_past_due_on_create = false;
  idempotency_key = "i1";
  escalation_level = 0;
}

abbrev a_desk : Desk
a_desk = record {
  engine = record { deadlines = ("d1", a_deadline) ∷ []; by_idem = []; arms = []; drawn = 0 };
  redis = none;
  delivered = [];
  fail_count = 0;
}

Keyed-a_desk : Keyed a_desk.engine
unfolding Keyed get lookup
Keyed-a_desk j sd h = elim (Bool-cases ("d1" == j)) [
  | inl same ↦
      let it : some a_deadline ≡ some sd = rw same at h in
      let sd_is : a_deadline ≡ sd = cc in
      subst (λ y. y.deadline_id ≡ j) sd_is ((eq_iff "d1" j).0 same)
  | inr other ↦ cc (rw other at h)
]

delivered_once : (fire_reminder "d1" "k1" a_desk).0 ≡ ok true
unfolding fire_reminder get lookup find_reminder dispatch notify
delivered_once = refl

-- the call is made again after a failed delivery
failed_first : (fire_reminder "d1" "k1" (record a_desk { fail_count = 1 })).0 ≡ err delivery_failed
unfolding fire_reminder get lookup find_reminder dispatch notify
failed_first = refl

fire_reminder_once_example :
    fire_reminder "d1" "k1" (mark_done "d1" (fire_reminder "d1" "k1" a_desk).1)
    ≡ (ok false, mark_done "d1" (fire_reminder "d1" "k1" a_desk).1)
fire_reminder_once_example =
    fire_reminder_once "d1" "k1" a_desk (fire_reminder "d1" "k1" a_desk).1
      (mark_done "d1" (fire_reminder "d1" "k1" a_desk).1) Keyed-a_desk (ends_in _ delivered_once)
      (finish "d1" start)
