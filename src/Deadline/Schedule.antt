-- ===== src/Deadline/Schedule.antt =====
-- src/cam/core/services/deadline/schedule.py, with `InMemoryScheduler` as the scheduler. The uuids are
-- drawn from a supply, in order. The audit calls and logs are left out.
use Prim.Native.String
use case_automation_mcp.Common.{
  ℕ, ◌+◌, String, Bool, true, false, not, ◌&&◌, ◌||◌, ◌++◌, Option, none, some, List, [], ◌∷◌, keep,
  Dict, lookup, insert, remove, values, truthy, ◌==◌, Outcome, ok, err, Exec, pure, raise, ◌>>=◌,
  ◌>>◌, reads, writes, if◌then◌else◌, map,
}
use case_automation_mcp.Common.Int.{ℤ}
use case_automation_mcp.Deadline.Dates.{DateTime, before}
use case_automation_mcp.Deadline.Types.{
  RuleRef, OffsetUnit, in_days, in_business_days, ReminderOffset, DeadlineRule, ComputationTrace,
  ReminderStatus, armed, skipped_past, ScheduledReminder, ScheduledDeadline,
}
use case_automation_mcp.Deadline.Compute.{ComputeError, compute_due_date, reminder_at}
pub mod Once
mod Tests

pub record Arm : Type 0 where
  pub fire_at : DateTime
  pub job_ref : String
  pub idem_key : String

-- `DeadlineStore` and `InMemoryScheduler`, with the number of uuids drawn
pub record Engine : Type 0 where
  pub deadlines : Dict ScheduledDeadline
  pub by_idem : Dict String
  pub arms : Dict Arm
  pub drawn : ℕ

-- the supply of uuids, the spelling of numbers, and the version of the calendar
pub record World : Type 0 where
  pub uuid : ℕ → String
  pub spell : ℤ → String
  pub calendar_version : String

-- `PastDueOnCreateError`, and what the computation raises
pub data ScheduleError : Type 0 where
  past_due : DateTime → ScheduleError
  not_computed : ComputeError → ScheduleError

abbrev pub Scheduling : Type 0 → Type 0
Scheduling A = Exec ScheduleError Engine A

abbrev text : String → String → String
text = String.◌++◌

-- `save`
unfoldable pub save : ScheduledDeadline → Engine → Engine
save sd g = record g {
  deadlines = insert sd.deadline_id sd g.deadlines;
  by_idem =
      if truthy sd.idempotency_key
      then insert sd.idempotency_key sd.deadline_id g.by_idem
      else g.by_idem;
}

unfoldable pub get : String → Engine → Option ScheduledDeadline
get deadline_id g = lookup deadline_id g.deadlines

abbrev pub get_named : Option String → Engine → Option ScheduledDeadline
get_named none g = none
get_named (some id) g = if truthy id then lookup id g.deadlines else none

unfoldable pub get_by_idem : String → Engine → Option ScheduledDeadline
get_by_idem idem_key g = get_named (lookup idem_key g.by_idem) g

unfoldable pub list_for_matter : String → Engine → List ScheduledDeadline
list_for_matter matter_id g = keep (λ sd. sd.matter_id == matter_id) (values g.deadlines)

-- `sorted` by `fire_at`: a stable insertion sort
insert_reminder : ScheduledReminder → List ScheduledReminder → List ScheduledReminder
insert_reminder r [] = r ∷ []
insert_reminder r (q ∷ l) =
    let rest = insert_reminder r l in if before q.fire_at r.fire_at then q ∷ rest else r ∷ q ∷ l

pub sort_reminders : List ScheduledReminder → List ScheduledReminder
unfolding insert_reminder
sort_reminders [] = []
sort_reminders (r ∷ l) = insert_reminder r (sort_reminders l)

-- `str(uuid.uuid4())`
pub fresh : World → Scheduling String
fresh w g = (ok (w.uuid g.drawn), record g { drawn = g.drawn + 1 })

-- `arm`
pub arm : World → DateTime → String → String → Scheduling String
unfolding fresh
arm w fire_at job_ref idem_key = do
  id ← fresh w
  writes (λ g. record g {
    arms = insert id (record { fire_at = fire_at; job_ref = job_ref; idem_key = idem_key }) g.arms;
  })
  pure id

-- `cancel`
unfoldable pub cancel : String → Engine → Engine
cancel arm_id g = record g { arms = remove arm_id g.arms }

spell_unit : OffsetUnit → String
spell_unit in_days = "days"
spell_unit in_business_days = "business_days"

pub record Order : Type 0 where
  pub matter_id : String
  pub rule : DeadlineRule
  pub trigger_inputs : Dict DateTime
  pub rule_ref : RuleRef
  pub idempotency_key : String

reminder_key : World → Order → ReminderOffset → String
unfolding spell_unit
reminder_key w q r =
    text q.idempotency_key (text ":" (text (w.spell r.amount) (text ":" (spell_unit r.unit))))

a_reminder :
    String → String → DateTime → ReminderOffset → ReminderStatus → List String → ScheduledReminder
a_reminder id key fire_at r status arm_ids = record {
  id = id;
  deadline_id = "";
  fire_at = fire_at;
  offset = r;
  status = status;
  idempotency_key = key;
  redundant_arm_ids = arm_ids;
}

-- one reminder, armed twice unless its time is past
pub settle_reminder :
    World → Order → DateTime → ReminderOffset → DateTime → Scheduling ScheduledReminder
unfolding arm fresh reminder_key a_reminder
settle_reminder w q now r fire_at =
    if before fire_at now
    then (do id ← fresh w; pure (a_reminder id (reminder_key w q r) fire_at r skipped_past []))
    else (do
      arm1 ← arm w fire_at (text "deadline_reminder:" q.idempotency_key) (reminder_key w q r)
      arm2 ← arm w fire_at (text "deadline_reminder_backup:" q.idempotency_key) (reminder_key w q r)
      id ← fresh w
      pure (a_reminder id (reminder_key w q r) fire_at r armed (arm1 ∷ arm2 ∷ [])))

pub computed : {A : Type 0} → Outcome ComputeError A → Scheduling A
computed (ok a) g = (ok a, g)
computed (err e) g = (err (not_computed e), g)

pub settle_reminders :
    World → Order → DateTime → DateTime → List ReminderOffset → Scheduling (List ScheduledReminder)
unfolding computed settle_reminder
settle_reminders w q now due [] = pure []
settle_reminders w q now due (r ∷ rs) = do
  fire_at ← computed (reminder_at r due)
  x ← settle_reminder w q now r fire_at
  xs ← settle_reminders w q now due rs
  pure (x ∷ xs)

-- `model_copy(update={"deadline_id": deadline_id})`
abbrev filled : String → ScheduledReminder → ScheduledReminder
filled id r = record r { deadline_id = id }

pub scheduled :
    String → Order → ComputationTrace → List ScheduledReminder → Bool → ScheduledDeadline
scheduled id q trace reminders flagged = record {
  deadline_id = id;
  matter_id = q.matter_id;
  rule_ref = q.rule_ref;
  trace = trace;
  reminders = reminders;
  flagged_past_due_on_create = flagged;
  idempotency_key = q.idempotency_key;
  escalation_level = 0;
}

-- a deadline that would be past is saved with a flag, and then the call raises
pub refuse : World → Order → ComputationTrace → Scheduling ScheduledDeadline
refuse w q trace = do
  id ← fresh w
  writes (save (scheduled id q trace [] true))
  raise (past_due trace.due_at)

pub persist :
    World → Order → ComputationTrace → List ScheduledReminder → Scheduling ScheduledDeadline
persist w q trace reminders = do
  id ← fresh w
  writes (save (scheduled id q trace (sort_reminders (map (filled id) reminders)) false))
  pure (scheduled id q trace (sort_reminders (map (filled id) reminders)) false)

pub accept : World → Order → DateTime → ComputationTrace → Scheduling ScheduledDeadline
unfolding settle_reminders
accept w q now trace = do
  reminders ← settle_reminders w q now trace.due_at q.rule.reminders
  persist w q trace reminders

pub schedule_new : World → Order → DateTime → Scheduling ScheduledDeadline
unfolding computed
schedule_new w q now = do
  trace ←
      computed (compute_due_date w.calendar_version q.rule q.trigger_inputs now (some q.rule_ref))
  if before trace.due_at now then refuse w q trace else accept w q now trace

abbrev pub unless :
    Option ScheduledDeadline → Scheduling ScheduledDeadline → Scheduling ScheduledDeadline
unless none m = m
unless (some sd) m = pure sd

unfoldable pub tool_deadline_schedule : World → Order → DateTime → Scheduling ScheduledDeadline
unfolding schedule_new refuse accept persist fresh scheduled sort_reminders
tool_deadline_schedule w q now g = unless (get_by_idem q.idempotency_key g) (schedule_new w q now) g

abbrev pub is_armed : ReminderStatus → Bool
is_armed armed = true
is_armed _ = false

due_by : DateTime → ScheduledReminder → Bool
due_by cutoff r = is_armed r.status && not (before cutoff r.fire_at)

for_matter : Option String → ScheduledDeadline → Bool
for_matter none sd = true
for_matter (some id) sd = not (truthy id) || (sd.matter_id == id)

-- the reminders of a matter, or of all for `none`, that are armed and due by the cutoff
collect_reminders : DateTime → Option String → List ScheduledDeadline → List ScheduledReminder
unfolding due_by for_matter
collect_reminders cutoff matter_id [] = []
collect_reminders cutoff matter_id (sd ∷ l) =
    let later = collect_reminders cutoff matter_id l in
    if for_matter matter_id sd then keep (due_by cutoff) sd.reminders ++ later else later

-- `upcoming_reminders`, with the end of the window as an argument
pub upcoming_reminders : DateTime → Option String → Engine → List ScheduledReminder
unfolding collect_reminders
upcoming_reminders cutoff matter_id g =
    sort_reminders (collect_reminders cutoff matter_id (values g.deadlines))
