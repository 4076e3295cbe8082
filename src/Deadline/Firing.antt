-- ===== src/Deadline/Firing.antt =====
-- src/cam/core/services/deadline/firing.py, with `MockNotificationPort` as the port and a Redis that
-- does not fail. Audit calls and logs are left out.
use Prim.Native.String
use case_automation_mcp.Common.{
  ℕ, zero, suc, ◌+◌, max, String, Bool, true, false, not, Option, none, some, List, [], ◌∷◌, any,
  map, ◌==◌, Outcome, ok, err, Exec, pure, raise, ◌>>=◌, ◌>>◌, writes, if◌then◌else◌,
}
use case_automation_mcp.Deadline.Dates.{DateTime}
use case_automation_mcp.Deadline.Types.{
  ReminderStatus, fired, skipped_past, ScheduledReminder, ScheduledDeadline,
}
use case_automation_mcp.Deadline.Schedule.{Engine, save, get, cancel, is_armed}
pub mod Quiet
pub mod Once
mod Tests

-- a call of `notify`, with the part of the payload that tells it from others
pub record Notification : Type 0 where
  pub recipients : List String
  pub deadline_id : String
  pub level : Option ℕ
  pub idem_key : String

-- The engine with the keys that are set in Redis, if there is one, and the port: what it delivered,
-- newest first, and how many calls it is set to fail.
pub record Desk : Type 0 where
  pub engine : Engine
  pub redis : Option (List String)
  pub delivered : List Notification
  pub fail_count : ℕ

-- `ConnectionError`
pub data NotifyError : Type 0 where
  delivery_failed : NotifyError

abbrev pub Firing : Type 0 → Type 0
Firing A = Exec NotifyError Desk A

abbrev text : String → String → String
text = String.◌++◌

-- `MockNotificationPort.notify`
abbrev deliver : ℕ → Notification → Firing Unit
deliver zero n x = (ok tt, record x { delivered = n ∷ x.delivered })
deliver (suc left) n x = (err delivery_failed, record x { fail_count = left })

pub notify : Notification → Firing Unit
notify n x = deliver x.fail_count n x

dedup_key : String → String
dedup_key key = text "cam:reminder_fired:" key

pub already_fired : String → Option (List String) → Bool
unfolding dedup_key
already_fired key none = false
already_fired key (some keys) = any (λ k. k == dedup_key key) keys

-- the key is set; its expiry after seven days is a change of the keys of its own
pub set_fired : String → Option (List String) → Option (List String)
unfolding dedup_key
set_fired key none = none
set_fired key (some keys) = some (dedup_key key ∷ keys)

-- `next((r for r in reminders if r.idempotency_key == key), None)`
pub find_reminder : String → List ScheduledReminder → Option ScheduledReminder
find_reminder key [] = none
find_reminder key (r ∷ l) =
    let later = find_reminder key l in if r.idempotency_key == key then some r else later

pub to_fired : String → ScheduledReminder → ScheduledReminder
to_fired key r = if r.idempotency_key == key then record r { status = fired } else r

abbrev pub put_away : ScheduledDeadline → Desk → Desk
put_away sd x = record x { engine = save sd x.engine }

-- `_resolve_recipients`
resolve_recipients : ScheduledDeadline → List String
resolve_recipients sd = text "case_manager:" sd.matter_id ∷ []

-- the part of `fire_reminder` for an armed reminder of a deadline
pub dispatch : String → String → ScheduledDeadline → Firing Bool
unfolding resolve_recipients
dispatch deadline_id key sd = do
  notify (record {
    recipients = resolve_recipients sd;
    deadline_id = deadline_id;
    level = none;
    idem_key = key;
  })
  writes (put_away (record sd { reminders = map (to_fired key) sd.reminders }))
  writes (λ x. record x { redis = set_fired key x.redis })
  pure true

abbrev pub if_armed : Option ScheduledReminder → Firing Bool → Firing Bool
if_armed none m = pure false
if_armed (some r) m = if is_armed r.status then m else pure false

abbrev pub fire_found : String → String → Option ScheduledDeadline → Firing Bool
fire_found deadline_id key none = pure false
fire_found deadline_id key (some sd) =
    if_armed (find_reminder key sd.reminders) (dispatch deadline_id key sd)

pub fire_reminder : String → String → Firing Bool
unfolding already_fired
fire_reminder deadline_id key x =
    if already_fired key x.redis
    then (ok false, x)
    else fire_found deadline_id key (get deadline_id x.engine) x

abbrev pub advance : ScheduledDeadline → ScheduledDeadline
advance sd = record sd { escalation_level = max sd.escalation_level (sd.escalation_level + 1) }

pub escalation_notice : (ℕ → String) → String → ScheduledDeadline → Notification
escalation_notice spell deadline_id sd = record {
  recipients = text "supervisor:" sd.matter_id ∷ text "case_manager:" sd.matter_id ∷ [];
  deadline_id = deadline_id;
  level = some (sd.escalation_level + 1);
  idem_key = text "esc:" (text deadline_id (text ":" (spell (sd.escalation_level + 1))));
}

abbrev pub escalate_found : (ℕ → String) → String → Option ScheduledDeadline → Firing ℕ
escalate_found spell deadline_id none = pure 0
escalate_found spell deadline_id (some sd) = do
  writes (put_away (advance sd))
  notify (escalation_notice spell deadline_id sd)
  pure (sd.escalation_level + 1)

-- the spelling of a number is the first argument
pub escalate : (ℕ → String) → String → Firing ℕ
unfolding escalation_notice
escalate spell deadline_id x = escalate_found spell deadline_id (get deadline_id x.engine) x

cancel_all : List String → Engine → Engine
cancel_all [] g = g
cancel_all (id ∷ ids) g = cancel_all ids (cancel id g)

pub cancel_armed : List ScheduledReminder → Engine → Engine
unfolding cancel_all
cancel_armed [] g = g
cancel_armed (r ∷ l) g =
    cancel_armed l (if is_armed r.status then cancel_all r.redundant_arm_ids g else g)

pub stood_down : ScheduledReminder → ScheduledReminder
stood_down r = if is_armed r.status then record r { status = skipped_past } else r

abbrev pub done_found : Option ScheduledDeadline → Desk → Desk
done_found none x = x
done_found (some sd) x = record x {
  engine =
      save (record sd { reminders = map stood_down sd.reminders })
        (cancel_armed sd.reminders x.engine);
}

pub mark_done : String → Desk → Desk
mark_done deadline_id x = done_found (get deadline_id x.engine) x
