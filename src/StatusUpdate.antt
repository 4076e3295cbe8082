-- ===== src/StatusUpdate.antt =====
-- src/cam/core/workflows/status_update: the store, the change ids and the handler of events. SHA-256, JSON, the case system, the email connector and
-- the supply of uuids are parameters; logs and audit calls leave no trace in the state.
use Prim.Native.String
use case_automation_mcp.Common.{
  ℕ, zero, suc, ◌+◌, String, Bool, true, false, not, Option, none, some, List, [], ◌∷◌, Dict,
  lookup, insert, is_some, truthy, length, ◌==◌, if◌then◌else◌, Outcome, ok, err, Exec,
}
use case_automation_mcp.Json.{Json}
use case_automation_mcp.Orchestrator.States.{RunStatus, WorkflowRun}
use case_automation_mcp.Orchestrator.Store.{Error, RunStore}
use case_automation_mcp.Orchestrator.Dsl.{Registry}
use case_automation_mcp.Orchestrator.Triggers.{Start, start_run, make_agent_trigger}
pub mod Sweep
pub mod Steps
pub mod Once
pub mod Sealed
mod Tests

pub record StatusUpdateConfig : Type 0 where
  pub trigger_allow_list : List String
  pub suppress_reverts : Bool

pub record StatusStore : Type 0 where
  pub last_status : Dict String
  pub transition_counters : Dict ℕ
  pub delivered : Dict String

pub data Source : Type 0 where
  webhook sweep manual : Source

pub record MatterStatusDelta : Type 0 where
  pub matter_id : String
  pub from_status : String
  pub to_status : String
  pub change_id : String
  pub source : Source
  pub detected_at : ℕ

-- The libraries, the registered workflows, the case system, which may fail, and the email connector,
-- which is asked for the nth time to send a draft under a key.
pub record World : Type 0 where
  pub sha256 : String → ℕ → String  -- the first digits of the digest
  pub decimal : ℕ → String
  pub dump : MatterStatusDelta → Json
  pub registry : Registry
  pub matter_status : String → Option String
  pub mailer : ℕ → String → String → Option String

pub get_last_status : String → StatusStore → Option String
get_last_status matter_id s = lookup matter_id s.last_status

pub update_last_status : String → String → StatusStore → StatusStore
update_last_status matter_id status s = record s {
  last_status = insert matter_id status s.last_status;
}

abbrev or_zero : Option ℕ → ℕ
or_zero none = 0
or_zero (some n) = n

pub next_transition_counter : String → StatusStore → ℕ × StatusStore
next_transition_counter matter_id s =
    let n = or_zero (lookup matter_id s.transition_counters) + 1 in
    (n, record s { transition_counters = insert matter_id n s.transition_counters })

pub is_delivered : String → StatusStore → Bool
is_delivered change_id s = is_some (lookup change_id s.delivered)

pub mark_delivered : String → String → StatusStore → StatusStore
mark_delivered change_id run_id s = record s { delivered = insert change_id run_id s.delivered }

pub get_run_for_change : String → StatusStore → Option String
get_run_for_change change_id s = lookup change_id s.delivered

abbrev listed : String → List String → Bool
listed x [] = false
listed x (y ∷ ys) = if x == y then true else listed x ys

pub should_trigger : String → StatusUpdateConfig → Bool
should_trigger to_status config = listed to_status config.trigger_allow_list

abbrev pub text : String → String → String
text = String.◌++◌

pub derive_change_id : World → String → String → String → String → String
derive_change_id w matter_id from to discriminator =
    w.sha256 (text matter_id (text ":" (text from (text ":" (text to (text ":" discriminator))))))
      16

pub sweep_change_id : World → String → String → String → ℕ → String
unfolding derive_change_id
sweep_change_id w matter_id from to n = derive_change_id w matter_id from to (w.decimal n)

pub record Change : Type 0 where
  pub matter_id : String
  pub from_status : String
  pub to_status : String
  pub provider_event_id : String

pub webhook_change_id : World → Change → String
unfolding derive_change_id
webhook_change_id w e = derive_change_id w e.matter_id e.from_status e.to_status e.provider_event_id

pub data Answer : Type 0 where
  noop : String → Answer
  started : String → RunStatus → String → Answer

-- the call of `start_run`
pub start_of : World → ℕ → Change → Start
unfolding webhook_change_id
start_of w now e = record {
  workflow = "status_update_email";
  context = w.dump (record {
    matter_id = e.matter_id;
    from_status = e.from_status;
    to_status = e.to_status;
    change_id = webhook_change_id w e;
    source = webhook;
    detected_at = now;
  });
  trigger = make_agent_trigger "status_update_webhook" (some (webhook_change_id w e));
  idem_key = some (webhook_change_id w e);
  run_id = none;
}

pub answer_of : String → Outcome Error WorkflowRun → Outcome Error (Option Answer)
answer_of change_id (err e) = err e
answer_of change_id (ok r) = ok (some (started r.id r.status change_id))

pub start_update : World → ℕ → String → Change → Exec Error RunStore (Option Answer)
unfolding start_of answer_of
start_update w now fresh e st =
    let (r, st') = start_run w.registry now fresh (start_of w now e) st in
    (answer_of (webhook_change_id w e) r, st')

pub handle_status_change_event :
    World
    → StatusUpdateConfig
    → StatusStore
    → ℕ
    → String
    → Change
    → Exec Error RunStore (Option Answer)
unfolding start_update should_trigger is_delivered
handle_status_change_event w cfg s now fresh e st =
    if not (should_trigger e.to_status cfg)
    then (ok none, st)
    else if is_delivered (webhook_change_id w e) s
    then (ok (some (noop (webhook_change_id w e))), st)
    else start_update w now fresh e st
