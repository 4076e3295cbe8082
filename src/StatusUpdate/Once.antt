-- ===== src/StatusUpdate/Once.antt =====
-- Events of a change that come twice.
use case_automation_mcp.Common.{
  ℕ, String, true, ◌≡◌, refl, ◌∙◌, ap, inl, inr, Option, none, some, Outcome, ok, err, truthy,
  Bool-cases,
}
use case_automation_mcp.Orchestrator.States.{RunStatus, WorkflowRun, TriggerRef}
use case_automation_mcp.Orchestrator.Store.{Error, RunStore, given}
use case_automation_mcp.Orchestrator.Store.Laws.{Reach}
use case_automation_mcp.Orchestrator.Dsl.{WorkflowDef, get_workflow_latest}
use case_automation_mcp.Orchestrator.Triggers.{start_run, dedupe_key_of}
use case_automation_mcp.Orchestrator.Triggers.Once.{start_run_once}
use case_automation_mcp.StatusUpdate.{
  World, StatusUpdateConfig, StatusStore, Change, Answer, noop, started, handle_status_change_event,
  start_update, start_of, answer_of, webhook_change_id, should_trigger, is_delivered,
}

-- an answer that names no run, or the run with that id
unfoldable pub NoOther : String → Option Answer → Type 0
NoOther id none = Unit
NoOther id (some (noop c)) = Unit
NoOther id (some (started i s c)) = i ≡ id

answer-started :
    (c id cid : String) (st : RunStatus) (o : Outcome Error WorkflowRun)
    → answer_of c o ≡ ok (some (started id st cid))
    → (r : WorkflowRun) × (o ≡ ok r) × (r.id ≡ id)
unfolding answer_of
answer-started c id cid st (err e) h = cc
answer-started c id cid st (ok r) h = (r, refl, cc)

start_update-started :
    (w : World) (now : ℕ) (fresh : String) (e : Change) (a b : RunStore) (id cid : String)
    (st : RunStatus)
    → start_update w now fresh e a ≡ (ok (some (started id st cid)), b)
    → (r : WorkflowRun) × (start_run w.registry now fresh (start_of w now e) a ≡ (ok r, b))
      × (r.id ≡ id)
unfolding start_update
start_update-started w now fresh e a b id cid st h =
    let (r, is_ok, same) =
      answer-started (webhook_change_id w e) id cid st
        (start_run w.registry now fresh (start_of w now e) a).0 (ap (λ p. p.0) h) in
    (r, (λ i. (is_ok i, ap (λ p. p.1) h i)), same)

event-started :
    (w : World) (cfg : StatusUpdateConfig) (s : StatusStore) (now : ℕ) (fresh : String) (e : Change)
    (a b : RunStore) (id cid : String) (st : RunStatus)
    → handle_status_change_event w cfg s now fresh e a ≡ (ok (some (started id st cid)), b)
    → start_update w now fresh e a ≡ (ok (some (started id st cid)), b)
unfolding handle_status_change_event
event-started w cfg s now fresh e a b id cid st h =
    elim (Bool-cases (should_trigger e.to_status cfg)) [
      | inr skip ↦ cc (rw skip at h)
      | inl listed ↦ elim (Bool-cases (is_delivered (webhook_change_id w e) s)) [
        | inl done ↦ cc (rw (listed, done) at h)
        | inr new ↦ rw (listed, new) at h
      ]
    ]

key_of : (k : String) (t : TriggerRef) → truthy k ≡ true → given (dedupe_key_of (some k) t) ≡ some k
unfolding dedupe_key_of
key_of k t full = rw (given, full) (rw (given, full) refl)

-- Where an event of a status change has started a run, the same event starts no other: after
-- whichever calls of the run store in which the ids of new runs and tokens are fresh, and whatever the
-- configuration and the store of statuses now are, a second call leaves the run store as it is, does
-- not raise, and names no run or the run of the first call. The change id is not empty, the workflow
-- is registered, and its context is valid.
pub handle_status_change_event_once :
    (w : World) (cfg cfg' : StatusUpdateConfig) (s s' : StatusStore) (now now' : ℕ)
    (fresh fresh' : String) (e : Change) (d : WorkflowDef) (a b c : RunStore) (id cid : String)
    (st : RunStatus)
    → truthy (webhook_change_id w e) ≡ true
    → get_workflow_latest "status_update_email" w.registry ≡ ok d
    → d.accepts (start_of w now' e).context ≡ true
    → handle_status_change_event w cfg s now fresh e a ≡ (ok (some (started id st cid)), b)
    → Reach b c
    → (o : Option Answer) × (handle_status_change_event w cfg' s' now' fresh' e c ≡ (ok o, c))
      × NoOther id o
unfolding handle_status_change_event NoOther
handle_status_change_event_once w cfg cfg' s s' now now' fresh fresh' e d a b c id cid st full known
      valid first between =
    elim (Bool-cases (should_trigger e.to_status cfg')) [
      | inr skip ↦ (none, rw skip refl, tt)
      | inl listed ↦ elim (Bool-cases (is_delivered (webhook_change_id w e) s')) [
        | inl done ↦ (some (noop (webhook_change_id w e)), rw (listed, done) refl, tt)
        | inr new ↦
            let (r, h, same) =
              start_update-started w now fresh e a b id cid st
                (event-started w cfg s now fresh e a b id cid st first) in
            let (r', again, ev) =
              start_run_once w.registry w.registry now now' fresh fresh' (start_of w now e)
                (start_of w now' e) d a b c (webhook_change_id w e) r
                (unfold start_of in key_of (webhook_change_id w e) (start_of w now e).trigger full)
                (unfold start_of in key_of (webhook_change_id w e) (start_of w now' e).trigger full)
                (unfold start_of in known) valid h between in
            (
              some (started r'.id r'.status (webhook_change_id w e)),
              rw (listed, new) (unfold start_update answer_of in rw again refl),
              ev.same_id ∙ same,
            )
      ]
    ]
