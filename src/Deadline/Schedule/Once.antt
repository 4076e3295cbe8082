-- ===== src/Deadline/Schedule/Once.antt =====
-- Schedules that are asked for again.
use case_automation_mcp.Common.{
  ℕ, String, true, false, ◌≡◌, refl, sym, ap, ◌∙◌, ◌⊎◌, inl, inr, none, some, List, [], ◌∷◌, truthy,
  Dict, Outcome, ok, err, continue, if◌then◌else◌, Bool-cases, Option-cases, lookup, insert,
  lookup-insert, eq_refl, subst,
}
use case_automation_mcp.Deadline.Dates.{DateTime, before}
use case_automation_mcp.Deadline.Types.{
  ReminderOffset, ScheduledReminder, ScheduledDeadline, ComputationTrace,
}
use case_automation_mcp.Deadline.Compute.{ComputeError, compute_due_date, reminder_at}
use case_automation_mcp.Deadline.Schedule.{
  World, Engine, Order, ScheduleError, past_due, not_computed, Scheduling, save, get_by_idem,
  tool_deadline_schedule, schedule_new, refuse, accept, persist, scheduled, computed,
  settle_reminder, settle_reminders, fresh, arm,
}

-- no deadline is found past due
abbrev Calm : {A : Type 0} → Outcome ScheduleError A → Type 0
Calm (err (past_due t)) = ⊥
Calm (err (not_computed e)) = Unit
Calm (ok a) = Unit

computed-Calm : {A : Type 0} (o : Outcome ComputeError A) (g : Engine) → Calm (computed o g).0
unfolding computed
computed-Calm (ok a) g = tt
computed-Calm (err e) g = tt

continue-Calm :
    {A B : Type 0} (p : Outcome ScheduleError A × Engine) (f : A → Scheduling B)
    → Calm p.0
    → ((a : A) (g : Engine) → Calm (f a g).0)
    → Calm (continue p.0 f p.1).0
continue-Calm (ok a, g) f h k = k a g
continue-Calm (err (past_due t), g) f h k = h
continue-Calm (err (not_computed e), g) f h k = tt

settle_reminder-Calm :
    (w : World) (q : Order) (now : DateTime) (r : ReminderOffset) (t : DateTime) (g : Engine)
    → Calm (settle_reminder w q now r t g).0
unfolding settle_reminder arm fresh
settle_reminder-Calm w q now r t g = elim (Bool-cases (before t now)) [
  | inl past ↦ rw (past, settle_reminder) tt
  | inr ahead ↦ rw (ahead, settle_reminder) tt
]

settle_reminders-Calm :
    (w : World) (q : Order) (now due : DateTime) (l : List ReminderOffset) (g : Engine)
    → Calm (settle_reminders w q now due l g).0
unfolding settle_reminders
settle_reminders-Calm w q now due [] g = tt
settle_reminders-Calm w q now due (r ∷ l) g =
    continue-Calm (computed (reminder_at r due) g) _ (computed-Calm (reminder_at r due) g) (λ t g1.
      continue-Calm (settle_reminder w q now r t g1) _ (settle_reminder-Calm w q now r t g1)
        (λ x g2.
          continue-Calm (settle_reminders w q now due l g2) _
            (settle_reminders-Calm w q now due l g2) (λ xs g3. tt)))

-- the deadline that a call leaves under its key
abbrev Saves : World → Order → ScheduledDeadline → Engine → Type 0
Saves w q sd g =
    (h : Engine) × (n : ℕ) × (g ≡ save sd h)
    × (sd.deadline_id ≡ w.uuid n)
    × (sd.idempotency_key ≡ q.idempotency_key)

abbrev Leaves : World → Order → Outcome ScheduleError ScheduledDeadline × Engine → Type 0
Leaves w q (ok sd, g) = Saves w q sd g × (sd.flagged_past_due_on_create ≡ false)
Leaves w q (err (past_due t), g) =
    (sd : ScheduledDeadline) × Saves w q sd g
    × (sd.flagged_past_due_on_create ≡ true)
    × (sd.trace.due_at ≡ t)
Leaves w q (err (not_computed e), g) = Unit

refuse-Leaves :
    (w : World) (q : Order) (trace : ComputationTrace) (g : Engine)
    → Leaves w q (refuse w q trace g)
unfolding refuse fresh scheduled
refuse-Leaves w q trace g = (_, (_, g.drawn, refl, refl, refl), refl, refl)

persist-Leaves :
    (w : World) (q : Order) (trace : ComputationTrace) (l : List ScheduledReminder) (g : Engine)
    → Leaves w q (persist w q trace l g)
unfolding persist fresh scheduled
persist-Leaves w q trace l g = ((_, g.drawn, refl, refl, refl), refl)

continue-Leaves :
    {A : Type 0} (w : World) (q : Order) (p : Outcome ScheduleError A × Engine)
    (f : A → Scheduling ScheduledDeadline)
    → Calm p.0
    → ((a : A) (g : Engine) → Leaves w q (f a g))
    → Leaves w q (continue p.0 f p.1)
continue-Leaves w q (ok a, g) f h k = k a g
continue-Leaves w q (err (past_due t), g) f h k = absurd h
continue-Leaves w q (err (not_computed e), g) f h k = tt

accept-Leaves :
    (w : World) (q : Order) (now : DateTime) (trace : ComputationTrace) (g : Engine)
    → Leaves w q (accept w q now trace g)
unfolding accept
accept-Leaves w q now trace g =
    continue-Leaves w q (settle_reminders w q now trace.due_at q.rule.reminders g)
      (persist w q trace) (settle_reminders-Calm w q now trace.due_at q.rule.reminders g)
      (persist-Leaves w q trace)

judged-Leaves :
    (w : World) (q : Order) (now : DateTime) (trace : ComputationTrace) (g : Engine)
    → Leaves w q ((if before trace.due_at now then refuse w q trace else accept w q now trace) g)
judged-Leaves w q now trace g = elim (Bool-cases (before trace.due_at now)) [
  | inl past ↦ rw past (refuse-Leaves w q trace g)
  | inr ahead ↦ rw ahead (accept-Leaves w q now trace g)
]

schedule_new-Leaves :
    (w : World) (q : Order) (now : DateTime) (g : Engine) → Leaves w q (schedule_new w q now g)
unfolding schedule_new
schedule_new-Leaves w q now g =
    let o = compute_due_date w.calendar_version q.rule q.trigger_inputs now (some q.rule_ref) in
    continue-Leaves w q (computed o g) _ (computed-Calm o g) (judged-Leaves w q now)

insert_self : {V : Type 0} (k : String) (v : V) (d : Dict V) → lookup k (insert k v d) ≡ some v
insert_self k v d = rw (lookup-insert k k v d, eq_refl k) refl

get_by_idem-save :
    (sd : ScheduledDeadline) (h : Engine)
    → truthy sd.idempotency_key ≡ true
    → truthy sd.deadline_id ≡ true
    → get_by_idem sd.idempotency_key (save sd h) ≡ some sd
unfolding get_by_idem save
get_by_idem-save sd h key id =
    rw (key, insert_self sd.idempotency_key sd.deadline_id h.by_idem)
      (rw id (insert_self sd.deadline_id sd h.deadlines))

tool-known :
    (w : World) (q : Order) (now : DateTime) (g : Engine) (sd : ScheduledDeadline)
    → get_by_idem q.idempotency_key g ≡ some sd
    → tool_deadline_schedule w q now g ≡ (ok sd, g)
unfolding tool_deadline_schedule
tool-known w q now g sd h = rw h refl

tool-new :
    (w : World) (q : Order) (now : DateTime) (g : Engine)
    → get_by_idem q.idempotency_key g ≡ none
    → tool_deadline_schedule w q now g ≡ schedule_new w q now g
unfolding tool_deadline_schedule
tool-new w q now g h = rw h refl

Saves-known :
    (w : World) (q : Order) (sd : ScheduledDeadline) (g : Engine)
    → truthy q.idempotency_key ≡ true
    → ((n : ℕ) → truthy (w.uuid n) ≡ true)
    → Saves w q sd g
    → get_by_idem q.idempotency_key g ≡ some sd
Saves-known w q sd g key ids (h, n, saved, named, keyed) = rw saved (
    subst (λ k. get_by_idem k (save sd h) ≡ some sd) keyed
      (get_by_idem-save sd h (rw keyed key) (rw named (ids n))))

-- what a call returns of the deadline that is under its key
abbrev pub Tells : ScheduledDeadline → Outcome ScheduleError ScheduledDeadline → Type 0
Tells sd o =
    (o ≡ ok sd) ⊎ ((o ≡ err (past_due sd.trace.due_at)) × (sd.flagged_past_due_on_create ≡ true))

under_key :
    (w : World) (q : Order) (g' : Engine) (o : Outcome ScheduleError ScheduledDeadline)
    → truthy q.idempotency_key ≡ true
    → ((n : ℕ) → truthy (w.uuid n) ≡ true)
    → Leaves w q (o, g')
    → ((sd : ScheduledDeadline) × Tells sd o × (get_by_idem q.idempotency_key g' ≡ some sd))
      ⊎ ((e : ComputeError) × (o ≡ err (not_computed e)))
under_key w q g' (ok sd) key ids (saves, plain) =
    inl (sd, inl refl, Saves-known w q sd g' key ids saves)
under_key w q g' (err (past_due t)) key ids (sd, saves, flagged, due) =
    inl
      (sd, inr (ap (λ x. err (past_due x)) (sym due), flagged), Saves-known w q sd g' key ids saves)
under_key w q g' (err (not_computed e)) key ids h = inr (e, refl)

-- A second call for an idempotency key, right after the first, changes nothing and returns the
-- deadline that the first one returned, or, where the first one raised that the deadline would be past
-- due, the deadline with the flag. A first call that raised what its computation raised is the other
-- case. The key and the drawn ids are not empty.
pub schedule_once :
    (w w' : World) (q q' : Order) (now now' : DateTime) (g g' : Engine)
    (o : Outcome ScheduleError ScheduledDeadline)
    → truthy q.idempotency_key ≡ true
    → ((n : ℕ) → truthy (w.uuid n) ≡ true)
    → q'.idempotency_key ≡ q.idempotency_key
    → tool_deadline_schedule w q now g ≡ (o, g')
    → ((sd : ScheduledDeadline) × Tells sd o × (tool_deadline_schedule w' q' now' g' ≡ (ok sd, g')))
      ⊎ ((e : ComputeError) × (o ≡ err (not_computed e)))
schedule_once w w' q q' now now' g g' o key ids same first =
    elim (Option-cases (get_by_idem q.idempotency_key g)) [
      | inr (sd, there) ↦
          let at_once : (ok sd, g) ≡ (o, g') = sym (tool-known w q now g sd there) ∙ first in
          let g_is = ap (λ p. p.1) at_once in
          inl (
            sd,
            inl (sym (ap (λ p. p.0) at_once)),
            again sd (subst (λ x. get_by_idem q.idempotency_key x ≡ some sd) g_is there),
          )
      | inl new ↦
          elim (under_key w q g' o key ids (
            subst (Leaves w q) (sym (tool-new w q now g new) ∙ first)
              (schedule_new-Leaves w q now g))) [
                | inl (sd, told, there) ↦ inl (sd, told, again sd there)
                | inr (e, failed) ↦ inr (e, failed)
              ]
    ]
  where
    again :
        (sd : ScheduledDeadline)
        → get_by_idem q.idempotency_key g' ≡ some sd
        → tool_deadline_schedule w' q' now' g' ≡ (ok sd, g')
    again sd there = tool-known w' q' now' g' sd (rw same there)
