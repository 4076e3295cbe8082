-- ===== src/StatusUpdate/Steps.antt =====
-- src/cam/core/workflows/status_update/workflow.py: `send_email` and `record_outcome`, without the audit
-- calls.
use case_automation_mcp.Common.{
  String, Bool, true, false, not, Option, none, some, List, ◌∷◌, truthy, length, if◌then◌else◌, ok,
  err, Exec,
}
use case_automation_mcp.StatusUpdate.{World, StatusStore, mark_delivered, text}

pub data QcResult : Type 0 where
  pass warn fail : QcResult

-- what the steps change: the store, and the drafts that the connector was asked to send with their
-- keys, newest first
pub record Office : Type 0 where
  pub status : StatusStore
  pub asked : List (String × String)

pub data SendFault : Type 0 where
  send_failed : SendFault

pub data Sent : Type 0 where
  not_sent : Sent
  sent : String → Sent

pub ask : World → String → String → Exec SendFault Office Sent
ask w draft_id idem_key o = (
  elim (w.mailer (length o.asked) draft_id idem_key) [
    | none ↦ err send_failed
    | some m ↦ ok (sent m)
  ],
  record o { asked = (draft_id, idem_key) ∷ o.asked },
)

abbrev is_fail : Option QcResult → Bool
is_fail (some fail) = true
is_fail _ = false

abbrev or_empty : Option String → String
or_empty none = ""
or_empty (some s) = s

-- the step, from the draft id and the result in the outputs of the steps before
pub send_email : World → Option String → Option QcResult → String → Exec SendFault Office Sent
unfolding ask
send_email w draft_id qc change_id o =
    if is_fail qc
    then (ok not_sent, o)
    else if not (truthy (or_empty draft_id))
    then (ok not_sent, o)
    else ask w (or_empty draft_id) (text "status_update:" change_id) o

unfoldable pub record_outcome : String → String → Sent → Office → Office
unfolding mark_delivered
record_outcome change_id run_id not_sent o = o
record_outcome change_id run_id (sent m) o = record o {
  status = mark_delivered change_id run_id o.status;
}
