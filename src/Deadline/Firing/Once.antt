-- ===== src/Deadline/Firing/Once.antt =====
-- Reminders that are armed twice.
use case_automation_mcp.Common.{
  ℕ, String, Bool, true, false, ◌≡◌, refl, sym, ap, ◌∙◌, inl, inr, Option, none, some, List, map,
  ◌==◌, eq_iff, ok, Bool-cases, subst,
}
use case_automation_mcp.Deadline.Types.{ScheduledDeadline}
use case_automation_mcp.Deadline.Schedule.{Engine, save, get}
use case_automation_mcp.Deadline.Firing.{
  Desk, fire_reminder, fire_found, dispatch, to_fired, already_fired, escalate, mark_done,
}
use case_automation_mcp.Deadline.Firing.Quiet.{
  quiet, Sound, get-save, fired-quiet, if_armed-quiet, fire_reminder-Fires, fire_reminder-Sound,
  escalate_found-Sound, done_found-Sound,
}

-- a store that has every deadline under its own id, as `save` puts it
unfoldable pub Keyed : Engine → Type 0
Keyed g = (j : String) (sd : ScheduledDeadline) → get j g ≡ some sd → sd.deadline_id ≡ j

-- the calls of the jobs that fire reminders, escalate and complete deadlines, and the expiry of keys in
-- Redis, or any other change of them
pub data Calls : Desk → Desk → Type 0 where
  start : {x : Desk} → Calls x x
  fire : {x y : Desk} (j k : String) → Calls x y → Calls x (fire_reminder j k y).1
  step_up :
      {x y : Desk} (spell : ℕ → String) (j : String) → Calls x y → Calls x (escalate spell j y).1
  expire :
      {x y : Desk} (keys : Option (List String)) → Calls x y → Calls x (record y { redis = keys })
  finish : {x y : Desk} (j : String) → Calls x y → Calls x (mark_done j y)

Calls-Sound :
    (id key : String) {x y : Desk} → Calls x y → Sound id key x.engine → Sound id key y.engine
unfolding escalate mark_done
Calls-Sound id key start sound = sound
Calls-Sound id key (fire {x} {y} j k calls) sound =
    fire_reminder-Sound id key j k y (Calls-Sound id key calls sound)
Calls-Sound id key (step_up {x} {y} spell j calls) sound =
    escalate_found-Sound spell id key j y (get j y.engine) refl (Calls-Sound id key calls sound)
Calls-Sound id key (expire keys calls) sound = Calls-Sound id key calls sound
Calls-Sound id key (finish {x} {y} j calls) sound =
    done_found-Sound id key j y (get j y.engine) refl (Calls-Sound id key calls sound)

fired-Sound :
    (id key : String) (g : Engine) (sd : ScheduledDeadline)
    → Keyed g
    → get id g ≡ some sd
    → Sound id key (save (record sd { reminders = map (to_fired key) sd.reminders }) g)
unfolding Sound Keyed
fired-Sound id key g sd keyed found j sd' h = elim (Bool-cases (sd.deadline_id == j)) [
  | inl same ↦
      let after = record sd { reminders = map (to_fired key) sd.reminders } in
      let it : some after ≡ some sd' = rw (get-save after j g, same) at h in
      let sd_is : after ≡ sd' = cc in
      (
        subst (λ y. y.deadline_id ≡ j) sd_is ((eq_iff sd.deadline_id j).0 same),
        λ e. subst (λ y. quiet key y.reminders ≡ true) sd_is (fired-quiet key sd.reminders),
      )
  | inr other ↦
      let after = record sd { reminders = map (to_fired key) sd.reminders } in
      let there : get j g ≡ some sd' = rw (get-save after j g, other) at h in
      (
        keyed j sd' there,
        λ e.
            let same = (eq_iff sd.deadline_id j).1 (keyed id sd found ∙ sym e) in
            absurd (clash same other),
      )
]
  where
    clash : {b : Bool} → b ≡ true → b ≡ false → ⊥
    clash t f = cc

fire_found_quiet :
    (id key : String) (x : Desk) (o : Option ScheduledDeadline)
    → get id x.engine ≡ o
    → Sound id key x.engine
    → fire_found id key o x ≡ (ok false, x)
unfolding Sound
fire_found_quiet id key x none h sound = refl
fire_found_quiet id key x (some sd) h sound =
    if_armed-quiet key sd.reminders (dispatch id key sd) x ((sound id sd h).1 refl)

first-Sound :
    (id key : String) (a b : Desk)
    → Keyed a.engine
    → fire_reminder id key a ≡ (ok true, b)
    → Sound id key b.engine
first-Sound id key a b keyed first = elim (fire_reminder-Fires id key a) [
  | inl same ↦ absurd (same.0 (ap (λ p. p.0) first))
  | inr (sd, found, saved) ↦
      subst (Sound id key) (sym saved ∙ ap (λ p. p.1.engine) first)
        (fired-Sound id key a.engine sd keyed found)
]

-- A reminder is delivered at most once. After a call of `fire_reminder` that returned true, and
-- whatever calls of `fire_reminder`, `escalate` and `mark_done` and whatever changes of the keys in
-- Redis come between, their expiry included, a second call for the
-- same reminder returns false and leaves everything as it is, with Redis and without it. In the
-- first place the store has every deadline under its own id.
pub fire_reminder_once :
    (id key : String) (a b c : Desk)
    → Keyed a.engine
    → fire_reminder id key a ≡ (ok true, b)
    → Calls b c
    → fire_reminder id key c ≡ (ok false, c)
unfolding fire_reminder
fire_reminder_once id key a b c keyed first between =
    elim (Bool-cases (already_fired key c.redis)) [
      | inl done ↦ rw done refl
      | inr new ↦ rw new (fire_found_quiet id key c (get id c.engine) refl sound)
    ]
  where
    sound : Sound id key c.engine
    sound = Calls-Sound id key between (first-Sound id key a b keyed first)
