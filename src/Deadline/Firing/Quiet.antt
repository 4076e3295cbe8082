-- ===== src/Deadline/Firing/Quiet.antt =====
-- Reminders that stay unarmed, and what each call leaves of a deadline.
use case_automation_mcp.Common.{
  ℕ, zero, suc, ◌+◌, String, Bool, true, false, not, ◌≡◌, refl, sym, ◌≢◌, ◌∙◌, ap, continue, ◌⊎◌,
  inl, inr, Option, none, some, List, [], ◌∷◌, all, map, ◌==◌, eq_iff, arith, Outcome, ok, err,
  if◌then◌else◌, Bool-cases, lookup-insert, subst,
}
use case_automation_mcp.Deadline.Types.{ScheduledReminder, ScheduledDeadline}
use case_automation_mcp.Deadline.Schedule.{Engine, save, get, cancel, is_armed}
use case_automation_mcp.Deadline.Firing.{
  Desk, Firing, Notification, set_fired, NotifyError, fire_reminder, fire_found, if_armed, dispatch,
  notify, deliver, find_reminder, to_fired, already_fired, escalate_found, escalation_notice,
  advance, done_found, stood_down, cancel_armed, cancel_all, put_away,
}

-- no reminder with the key is armed
abbrev pub quiet_at : String → ScheduledReminder → Bool
quiet_at key r = if r.idempotency_key == key then not (is_armed r.status) else true

abbrev pub quiet : String → List ScheduledReminder → Bool
quiet key l = all (quiet_at key) l

pub fired-quiet :
    (key : String) (l : List ScheduledReminder) → quiet key (map (to_fired key) l) ≡ true
unfolding to_fired
fired-quiet key [] = refl
fired-quiet key (r ∷ l) = ground (arith, fired-quiet key l)

fired-keeps :
    (key k : String) (l : List ScheduledReminder)
    → quiet key l ≡ true
    → quiet key (map (to_fired k) l) ≡ true
unfolding to_fired
fired-keeps key k [] h = refl
fired-keeps key k (r ∷ l) h = ground (arith, fired-keeps key k l)

stood_down-keeps :
    (key : String) (l : List ScheduledReminder)
    → quiet key l ≡ true
    → quiet key (map stood_down l) ≡ true
unfolding stood_down
stood_down-keeps key [] h = refl
stood_down-keeps key (r ∷ l) h = ground (arith, stood_down-keeps key l)

-- a quiet key fires nothing
pub if_armed-quiet :
    (key : String) (l : List ScheduledReminder) (m : Firing Bool) (x : Desk)
    → quiet key l ≡ true
    → if_armed (find_reminder key l) m x ≡ (ok false, x)
unfolding find_reminder
if_armed-quiet key [] m x h = refl
if_armed-quiet key (r ∷ l) m x h = elim (Bool-cases (r.idempotency_key == key)) [
  | inl same ↦ let off : is_armed r.status ≡ false = ground arith in rw same (rw off refl)
  | inr other ↦ rw other (if_armed-quiet key l m x (rw other at h))
]

-- The store has a deadline under its own id, and none with an armed reminder of that key under that
-- id.
unfoldable pub Sound : String → String → Engine → Type 0
Sound id key g =
    (j : String) (sd : ScheduledDeadline)
    → get j g ≡ some sd
    → (sd.deadline_id ≡ j) × (j ≡ id → quiet key sd.reminders ≡ true)

pub get-save :
    (sd : ScheduledDeadline) (j : String) (g : Engine)
    → get j (save sd g) ≡ (if sd.deadline_id == j then some sd else get j g)
unfolding get save
get-save sd j g = lookup-insert sd.deadline_id j sd g.deadlines

save-Sound :
    (id key : String) (g : Engine) (sd : ScheduledDeadline)
    → Sound id key g
    → (sd.deadline_id ≡ id → quiet key sd.reminders ≡ true)
    → Sound id key (save sd g)
unfolding Sound
save-Sound id key g sd sound silent j sd' h = elim (Bool-cases (sd.deadline_id == j)) [
  | inl same ↦
      let here = (eq_iff sd.deadline_id j).0 same in
      let it : some sd ≡ some sd' = rw (get-save sd j g, same) at h in
      let sd_is : sd ≡ sd' = cc in
      (
        subst (λ y. y.deadline_id ≡ j) sd_is here,
        λ e. subst (λ y. quiet key y.reminders ≡ true) sd_is (silent (here ∙ e)),
      )
  | inr other ↦ sound j sd' (rw (get-save sd j g, other) at h)
]

pub notify-engine : (n : Notification) (x : Desk) → (notify n x).1.engine ≡ x.engine
unfolding notify
notify-engine n x = go x.fail_count
  where
    go : (left : ℕ) → (deliver left n x).1.engine ≡ x.engine
    go zero = refl
    go (suc left) = refl

-- What a call leaves of the engine: it is as before, and the call did not return `true`, or the
-- deadline is saved with its reminders of that key fired.
abbrev pub Fires : String → String → Desk → Outcome NotifyError Bool × Desk → Type 0
Fires j k x p =
    ((p.0 ≢ ok true) × (p.1.engine ≡ x.engine))
    ⊎ ((sd : ScheduledDeadline) × (get j x.engine ≡ some sd)
        × (p.1.engine ≡ save (record sd { reminders = map (to_fired k) sd.reminders }) x.engine))

dispatch-Fires :
    (j k : String) (sd : ScheduledDeadline) (x : Desk)
    → get j x.engine ≡ some sd
    → Fires j k x (dispatch j k sd x)
unfolding dispatch
dispatch-Fires j k sd x h = after (notify _ x) (notify-engine _ x)
  where
    after :
        (p : Outcome NotifyError Unit × Desk)
        → p.1.engine ≡ x.engine
        → Fires j k x (
            continue p.0
              (λ _ y. (
                ok true,
                record y {
                  engine = save (record sd { reminders = map (to_fired k) sd.reminders }) y.engine;
                  redis = set_fired k y.redis;
                },
              ))
              p.1)
    after (ok tt, y) e =
        inr (sd, h, ap (save (record sd { reminders = map (to_fired k) sd.reminders })) e)
    after (err z, y) e = inl (λ c. cc, e)

if_armed-Fires :
    (j k : String) (x : Desk) (o : Option ScheduledReminder) (m : Firing Bool)
    → Fires j k x (m x)
    → Fires j k x (if_armed o m x)
if_armed-Fires j k x none m h = inl (λ e. cc, refl)
if_armed-Fires j k x (some r) m h = elim (Bool-cases (is_armed r.status)) [
  | inl on ↦ rw on h
  | inr off ↦ rw off (inl (λ e. cc, refl))
]

pub fire_found-Fires :
    (j k : String) (x : Desk) (o : Option ScheduledDeadline)
    → get j x.engine ≡ o
    → Fires j k x (fire_found j k o x)
fire_found-Fires j k x none h = inl (λ e. cc, refl)
fire_found-Fires j k x (some sd) h =
    if_armed-Fires j k x (find_reminder k sd.reminders) (dispatch j k sd)
      (dispatch-Fires j k sd x h)

pub fire_reminder-Fires : (j k : String) (x : Desk) → Fires j k x (fire_reminder j k x)
unfolding fire_reminder
fire_reminder-Fires j k x = elim (Bool-cases (already_fired k x.redis)) [
  | inl done ↦ rw done (inl (λ e. cc, refl))
  | inr new ↦ rw new (fire_found-Fires j k x (get j x.engine) refl)
]

pub fire_reminder-Sound :
    (id key j k : String) (x : Desk)
    → Sound id key x.engine
    → Sound id key (fire_reminder j k x).1.engine
unfolding Sound
fire_reminder-Sound id key j k x sound = elim (fire_reminder-Fires j k x) [
  | inl same ↦ rw same.1 sound
  | inr (sd, found, saved) ↦
      let (named, silent) = sound j sd found in
      rw saved (
        save-Sound id key x.engine (record sd { reminders = map (to_fired k) sd.reminders }) sound
          (λ e. fired-keeps key k sd.reminders (silent (sym named ∙ e))))
]

advance-Sound :
    (id key j : String) (g : Engine) (sd : ScheduledDeadline)
    → Sound id key g
    → get j g ≡ some sd
    → Sound id key (save (advance sd) g)
unfolding Sound
advance-Sound id key j g sd sound found =
    let (named, silent) = sound j sd found in
    save-Sound id key g (advance sd) sound (λ e. silent (sym named ∙ e))

pub escalate_found-Sound :
    (spell : ℕ → String) (id key j : String) (x : Desk) (o : Option ScheduledDeadline)
    → get j x.engine ≡ o
    → Sound id key x.engine
    → Sound id key (escalate_found spell j o x).1.engine
escalate_found-Sound spell id key j x none h sound = sound
escalate_found-Sound spell id key j x (some sd) h sound =
    after (notify (escalation_notice spell j sd) (put_away (advance sd) x)) (
      subst (Sound id key)
        (sym (notify-engine (escalation_notice spell j sd) (put_away (advance sd) x)))
        (advance-Sound id key j x.engine sd sound h))
  where
    after :
        (p : Outcome NotifyError Unit × Desk)
        → Sound id key p.1.engine
        → Sound id key (continue p.0 (λ _ y. (ok (sd.escalation_level + 1), y)) p.1).1.engine
    after (ok tt, y) e = e
    after (err z, y) e = e

cancel_all-get : (ids : List String) (j : String) (g : Engine) → get j (cancel_all ids g) ≡ get j g
unfolding cancel_all cancel get
cancel_all-get [] j g = refl
cancel_all-get (id ∷ ids) j g = cancel_all-get ids j (cancel id g)

cancel_armed-get :
    (l : List ScheduledReminder) (j : String) (g : Engine) → get j (cancel_armed l g) ≡ get j g
unfolding cancel_armed
cancel_armed-get [] j g = refl
cancel_armed-get (r ∷ l) j g = elim (Bool-cases (is_armed r.status)) [
  | inl on ↦ rw on (
      cancel_armed-get l j (cancel_all r.redundant_arm_ids g)
      ∙ cancel_all-get r.redundant_arm_ids j g)
  | inr off ↦ rw off (cancel_armed-get l j g)
]

pub done_found-Sound :
    (id key j : String) (x : Desk) (o : Option ScheduledDeadline)
    → get j x.engine ≡ o
    → Sound id key x.engine
    → Sound id key (done_found o x).engine
unfolding Sound
done_found-Sound id key j x none h sound = sound
done_found-Sound id key j x (some sd) h sound =
    let (named, silent) = sound j sd h in
    save-Sound id key (cancel_armed sd.reminders x.engine)
      (record sd { reminders = map stood_down sd.reminders })
      (λ i y there. sound i y (sym (cancel_armed-get sd.reminders i x.engine) ∙ there))
      (λ e. stood_down-keeps key sd.reminders (silent (sym named ∙ e)))
