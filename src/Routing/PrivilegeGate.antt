-- ===== src/Routing/PrivilegeGate.antt =====
-- src/cam/core/workflows/document_routing/privilege_gate.py
use case_automation_mcp.Common.{
  String, Bool, true, false, not, Option, is_some, ◌||◌, if◌then◌else◌,
}
use case_automation_mcp.Routing.Types.{Document, RoutingDestination, GateVerdict, pass, fail}

-- `_destination_is_external`
destination_is_external : RoutingDestination → Bool
destination_is_external d = false

unfoldable pub check : Document → RoutingDestination → Option String → Bool → GateVerdict
unfolding destination_is_external
check document destination recipient_id caller_claims_external =
    if not (caller_claims_external || destination_is_external destination || is_some recipient_id)
    then pass
    else if document.privileged
    then fail
    else pass

abbrev pub is_fail : GateVerdict → Bool
is_fail fail = true
is_fail _ = false

pub is_hard_blocked : Document → RoutingDestination → Option String → Bool → Bool
is_hard_blocked document destination recipient_id caller_claims_external =
    is_fail (check document destination recipient_id caller_claims_external)
