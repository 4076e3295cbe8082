-- ===== src/Routing/Service/Sealed.antt =====
-- Where a privileged document goes.
use case_automation_mcp.Common.{
  String, true, ◌≡◌, refl, ◌⊎◌, inl, inr, none, some, lookup, Option-cases,
}
use case_automation_mcp.Routing.Types.{blocked, duplicate, RoutingDecision, RoutingDestination}
use case_automation_mcp.Routing.Config.{RoutingConfig}
use case_automation_mcp.Routing.Classifier.{Classification, classify}
use case_automation_mcp.Routing.PrivilegeGate.{check, is_fail}
use case_automation_mcp.Routing.Service.{
  World, Service, Request, route, dispatch, derive_idem_key, decision_to_result, verdict_of, settle,
  decide, destination_of,
}
use case_automation_mcp.Routing.Service.Laws.{
  route-known, route-new, write_audit_same, settle_state,
}

verdict_of-privileged :
    (q : Request) (r : String) (d : RoutingDestination)
    → q.document.privileged ≡ true
    → q.recipient_id ≡ some r
    → is_fail (verdict_of q d) ≡ true
unfolding verdict_of check
verdict_of-privileged q r d private to = rw (to, private) refl

dispatch-privileged :
    (w : World) (cfg : RoutingConfig) (q : Request) (r : String) (c : Classification) (s : Service)
    → q.document.privileged ≡ true
    → q.recipient_id ≡ some r
    → dispatch w cfg q c s ≡ settle (decide w cfg q c blocked) s
unfolding dispatch
dispatch-privileged w cfg q r c s private to =
    rw (verdict_of-privileged q r (destination_of cfg q c) private to) refl

-- A request to route a privileged document to a recipient asks no move of the docstore, whatever the
-- options, the configuration, the extracted fields and the state of the service are. Its outcome is
-- "blocked", or "duplicate" where the store has a decision under its key.
pub route-privileged :
    (w : World) (cfg : RoutingConfig) (q : Request) (r : String) (s : Service)
    → q.document.privileged ≡ true
    → q.recipient_id ≡ some r
    → ((route w cfg q s).1.moves ≡ s.moves)
      × (((lookup (derive_idem_key w cfg q) s.decisions ≡ none)
            × ((route w cfg q s).0.outcome ≡ blocked))
          ⊎ ((d : RoutingDecision) × (lookup (derive_idem_key w cfg q) s.decisions ≡ some d)
              × ((route w cfg q s).0.outcome ≡ duplicate)))
unfolding settle decide decision_to_result
route-privileged w cfg q r s private to =
    elim (Option-cases (lookup (derive_idem_key w cfg q) s.decisions)) [
      | inr (d, h) ↦
          rw (route-known w cfg q s d h) ((write_audit_same d duplicate s).1, inr (d, h, refl))
      | inl h ↦
          let c = classify w.lower q.document q.extraction_fields cfg in
          rw (route-new w cfg q s h, dispatch-privileged w cfg q r c s private to)
            ((settle_state (decide w cfg q c blocked) s).1, inl (h, refl))
    ]
