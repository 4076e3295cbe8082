-- ===== src/StatusUpdate/Sealed.antt =====
-- Changes that were delivered.
use case_automation_mcp.Common.{
  ℕ, String, true, ◌≡◌, refl, inl, inr, none, some, ok, Bool-cases, lookup-insert, ◌==◌,
  if◌then◌else◌, eq_refl,
}
use case_automation_mcp.Orchestrator.Store.{RunStore}
use case_automation_mcp.StatusUpdate.{
  World, StatusUpdateConfig, StatusStore, Change, noop, handle_status_change_event,
  webhook_change_id, should_trigger, is_delivered, mark_delivered, update_last_status,
  next_transition_counter,
}
use case_automation_mcp.StatusUpdate.Steps.{Office, sent, record_outcome}

-- the calls that change the store of statuses
pub data Calls : StatusStore → StatusStore → Type 0 where
  start : {x : StatusStore} → Calls x x
  update : {x y : StatusStore} (m s : String) → Calls x y → Calls x (update_last_status m s y)
  count : {x y : StatusStore} (m : String) → Calls x y → Calls x (next_transition_counter m y).1
  mark : {x y : StatusStore} (c r : String) → Calls x y → Calls x (mark_delivered c r y)

delivered-mark :
    (k c r : String) (s : StatusStore)
    → is_delivered k s ≡ true
    → is_delivered k (mark_delivered c r s) ≡ true
unfolding is_delivered mark_delivered
delivered-mark k c r s h = elim (Bool-cases (c == k)) [
  | inl same ↦ rw (lookup-insert c k r s.delivered, same) refl
  | inr other ↦ rw (lookup-insert c k r s.delivered, other) h
]

Calls-delivered :
    (k : String) {x y : StatusStore} → Calls x y → is_delivered k x ≡ true → is_delivered k y ≡ true
unfolding is_delivered update_last_status next_transition_counter
Calls-delivered k start h = h
Calls-delivered k (update m s calls) h = Calls-delivered k calls h
Calls-delivered k (count m calls) h = Calls-delivered k calls h
Calls-delivered k (mark {x} {y} c r calls) h = delivered-mark k c r y (Calls-delivered k calls h)

marked : (c r : String) (s : StatusStore) → is_delivered c (mark_delivered c r s) ≡ true
unfolding is_delivered mark_delivered
marked c r s = rw (lookup-insert c c r s.delivered, eq_refl c) refl

-- Once the outcome of an email that was sent for a change is recorded, an event of that change
-- starts no run, whatever calls on the store of statuses come between, and whatever the
-- configuration and the run store are: it leaves the run store as it is, does not raise, and is
-- skipped or answered with the change id.
pub record_outcome-seals :
    (w : World) (cfg : StatusUpdateConfig) (now : ℕ) (fresh run_id message_id : String) (e : Change)
    (o : Office) (s : StatusStore) (st : RunStore)
    → Calls (record_outcome (webhook_change_id w e) run_id (sent message_id) o).status s
    → handle_status_change_event w cfg s now fresh e st ≡ (
      ok (if should_trigger e.to_status cfg then some (noop (webhook_change_id w e)) else none),
      st,
    )
unfolding handle_status_change_event record_outcome
record_outcome-seals w cfg now fresh run_id message_id e o s st calls =
    let done =
      Calls-delivered (webhook_change_id w e) calls
        (marked (webhook_change_id w e) run_id o.status) in
    elim (Bool-cases (should_trigger e.to_status cfg)) [
      | inl listed ↦ rw (listed, done) refl
      | inr skip ↦ rw skip refl
    ]
