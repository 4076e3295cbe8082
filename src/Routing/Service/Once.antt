-- ===== src/Routing/Service/Once.antt =====
-- Requests that come again.
use case_automation_mcp.Common.{String, ◌≡◌, refl, some, lookup}
use case_automation_mcp.Routing.Types.{duplicate, RoutingDecision}
use case_automation_mcp.Routing.Config.{RoutingConfig}
use case_automation_mcp.Routing.Service.{
  World, Service, Request, route, derive_idem_key, decision_to_result,
}
use case_automation_mcp.Routing.Service.Laws.{
  route-saves, route-keeps, route-known, write_audit_same,
}

-- the calls of one service, with the world and the configuration that it has at each of them
pub data Calls : Service → Service → Type 0 where
  start : {s : Service} → Calls s s
  call :
      {a b : Service} (w : World) (cfg : RoutingConfig) (q : Request)
      → Calls a b
      → Calls a (route w cfg q b).1

Calls-keeps :
    {a b : Service} (k : String) (d : RoutingDecision)
    → Calls a b
    → lookup k a.decisions ≡ some d
    → lookup k b.decisions ≡ some d
Calls-keeps k d start h = h
Calls-keeps k d (call {a} {b} w cfg q cs) h = route-keeps w cfg q b k d (Calls-keeps k d cs h)

-- A request with the idempotency key of an earlier request to the service, whatever calls came
-- between the two, asks no move of the docstore and changes no decision. It returns what the earlier
-- one returned, but for the outcome, which is "duplicate".
pub route_once :
    (w w' : World) (cfg cfg' : RoutingConfig) (q q' : Request) (a b : Service)
    → derive_idem_key w' cfg' q' ≡ derive_idem_key w cfg q
    → Calls (route w cfg q a).1 b
    → ((route w' cfg' q' b).0 ≡ record (route w cfg q a).0 { outcome = duplicate })
      × ((route w' cfg' q' b).1.moves ≡ b.moves)
      × ((route w' cfg' q' b).1.decisions ≡ b.decisions)
unfolding decision_to_result
route_once w w' cfg cfg' q q' a b same between =
    let (d, o, saved, returned) = route-saves w cfg q a in
    let there = Calls-keeps (derive_idem_key w cfg q) d between saved in
    let known : lookup (derive_idem_key w' cfg' q') b.decisions ≡ some d = rw same there in
    rw (route-known w' cfg' q' b d known) (
      rw (returned, same) refl,
      (write_audit_same d duplicate b).1,
      (write_audit_same d duplicate b).0,
    )
