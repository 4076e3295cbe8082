-- ===== src/Orchestrator/Gates/Tests.antt =====
-- Concrete runs of the gates.
use case_automation_mcp.Common.{
  ℕ, String, ◌≡◌, ◌≢◌, refl, none, ok, err, lookup, insert, ends_in, arith,
}
use case_automation_mcp.Rbac.{Permission-discrete, Role-discrete, grants, authorize, role_of}
use case_automation_mcp.Orchestrator.States.{
  Decision, Channel, ApprovalDecision, is_legal_run_transition, RunStatus-discrete,
}
use case_automation_mcp.Orchestrator.Store.{
  gate, get_token, mark_token_used, get_gate_request, save_approval_decision, update_gate_request,
  update_run_status,
}
use case_automation_mcp.Orchestrator.Store.Laws.{start}
use case_automation_mcp.Orchestrator.Fixtures.{a_codec, a_desk, a_payload}
use case_automation_mcp.Orchestrator.Gates.{
  Desk, issue_token, resolve_gate, inspect, checked, verify_token, verify_parts, decoded, split_dot,
  unexpired, known_token, admit, spend, pending_gate, authorised, holds_role, close_gate, decode,
  padded, equals, chars, settle_run, on_store, note, refuse, advance_if_approved, decision_of,
}
use case_automation_mcp.Orchestrator.Gates.Resolve.{Resolved, resolve_gate-ok, resolve_gate_once}
use case_automation_mcp.Orchestrator.Gates.Tokens.{Base64, verify-issue}
use case_automation_mcp.Orchestrator.Gates.Refusals.{Kept, resolve_gate-refused}

abbrev after : ℕ → String → Desk → Desk
after now actor w =
    (resolve_gate a_codec "k" now "dA.sig" Decision.approve actor Channel.mcp none w).1

abbrev the_decision : ApprovalDecision
the_decision = decision_of 5 (a_payload "t") Decision.approve "attorney" Channel.mcp none

approved :
    (resolve_gate a_codec "k" 5 "dA.sig" Decision.approve "attorney" Channel.mcp none a_desk).0
    ≡ ok the_decision
unfolding resolve_gate inspect checked verify_token verify_parts decoded decode padded equals chars
    split_dot unexpired known_token admit spend pending_gate authorised holds_role close_gate
    settle_run on_store note refuse advance_if_approved get_token mark_token_used get_gate_request
    save_approval_decision update_gate_request update_run_status lookup insert
    is_legal_run_transition RunStatus-discrete Permission-discrete Role-discrete grants authorize
    role_of
approved = refl

resolve_gate-ok_example :
    Resolved a_codec "k" 5 "dA.sig" the_decision "attorney" a_desk (after 5 "attorney" a_desk)
    × (the_decision.decision ≡ Decision.approve)
    × (the_decision.actor ≡ "attorney")
resolve_gate-ok_example =
    resolve_gate-ok a_codec "k" 5 "dA.sig" Decision.approve "attorney" Channel.mcp none the_decision
      a_desk (after 5 "attorney" a_desk) (ends_in _ approved)

resolve_gate_once_example :
    resolve_gate a_codec "k" 9 "dA.sig" Decision.reject "attorney" Channel.web none
      (after 5 "attorney" a_desk)
    ≢ (ok the_decision, a_desk)
resolve_gate_once_example =
    resolve_gate_once a_codec "k" "dA.sig" 5 9 Decision.approve Decision.reject "attorney"
      "attorney" Channel.mcp Channel.web none none the_decision the_decision a_desk
      (after 5 "attorney" a_desk) (after 5 "attorney" a_desk) a_desk (ends_in _ approved) start

denied :
    (resolve_gate a_codec "k" 5 "dA.sig" Decision.approve "paralegal" Channel.mcp none a_desk).0
    ≡ err (gate 403)
unfolding resolve_gate inspect checked verify_token verify_parts decoded decode padded equals chars
    split_dot unexpired known_token admit spend pending_gate authorised holds_role refuse note
    get_token mark_token_used get_gate_request lookup insert Role-discrete role_of
denied = refl

resolve_gate-refused_example : Kept a_desk (after 5 "paralegal" a_desk)
resolve_gate-refused_example =
    resolve_gate-refused a_codec "k" 5 "dA.sig" Decision.approve "paralegal" Channel.mcp none 403
      a_desk (after 5 "paralegal" a_desk) (ends_in _ denied)

the_text : Base64 "dA=="
unfolding equals chars
the_text = record {
  body = "dA";
  fill = 2;
  shape = refl;
  clean = ground arith;
  few = omega arith;
  whole = refl;
}

verify-issue_example :
    verify_token a_codec (issue_token a_codec 60 "t" "g" "r" "GATE:review" Channel.mcp "k" 40).0 "k"
    ≡ ok (a_payload "t")
verify-issue_example =
    verify-issue a_codec "k" 60 40 "t" "g" "r" "GATE:review" Channel.mcp (a_payload "t") refl
      the_text refl refl

verified : verify_token a_codec "dA.sig" "k" ≡ ok (a_payload "t")
unfolding verify_token verify_parts decoded decode padded equals chars split_dot
verified = refl
