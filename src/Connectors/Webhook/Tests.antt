-- ===== src/Connectors/Webhook/Tests.antt =====
-- A webhook that is delivered twice.
use Prim.Native.String
use case_automation_mcp.Common.{
  ◌≤◌, true, false, ◌≡◌, refl, none, some, [], ◌∷◌, lookup, insert, arith,
}
use case_automation_mcp.Json.{null}
use case_automation_mcp.Connectors.Webhook.{
  World, Event, Delivery, Gateway, enqueued, enqueue_failed, duplicate_ignored, process_webhook,
  parse_body, accept_event, deduplicate, mark_and_enqueue, enqueue, dedup_key, verify_signature,
  is_fresh, is_near, not_a_number, is_signed, signature_of,
}
use case_automation_mcp.Connectors.Webhook.Once.{count, start, deliver, process_webhook_once}
use case_automation_mcp.Connectors.Webhook.Signed.{
  IsSigned, IsFresh, IsNew, process_webhook-enqueued,
}

abbrev a_world : World
a_world = record {
  hmac = λ secret body. "mac";
  loads = λ s. some null;
  float = λ s. none;
  now = 1000;
  redis_answers = λ n. true;
  accepts = λ n. true;
}

abbrev closed_sink : World
closed_sink = record a_world { accepts = λ n. false }

abbrev an_event : Event
an_event = record {
  id = "u";
  connector = "crm";
  provider_event_id = "e1";
  kind = "lead.created";
  matter_ref = none;
  payload = null;
}

abbrev a_delivery : Delivery
a_delivery = record {
  connector_name = "crm";
  raw_body = "{}";
  headers = ("x-signature", "mac") ∷ [];
  secret = "s";
  normaliser = λ c j. some an_event;
}

abbrev empty : Gateway
empty = record { keys = []; uses = 0; sent = [] }

accepted : (process_webhook a_world a_delivery empty).0 ≡ enqueued
unfolding process_webhook parse_body accept_event deduplicate mark_and_enqueue enqueue dedup_key
    verify_signature is_fresh is_signed signature_of lookup insert
accepted = refl

-- a time that is not a number passes for a recent one
nan_is_fresh : is_fresh (record a_world { float = λ s. some not_a_number }) (some "nan") ≡ true
unfolding is_fresh is_near
nan_is_fresh = refl

-- an event that the sink refused counts as a duplicate when it is delivered again
refused_for_good :
    ((process_webhook closed_sink a_delivery empty).0 ≡ enqueue_failed)
    × ((process_webhook a_world a_delivery (process_webhook closed_sink a_delivery empty).1).0
        ≡ duplicate_ignored)
unfolding process_webhook parse_body accept_event deduplicate mark_and_enqueue enqueue dedup_key
    verify_signature is_fresh is_signed signature_of lookup insert
refused_for_good = (refl, refl)

process_webhook_once_example :
    count "cam:webhook:crm:e1"
      (process_webhook a_world a_delivery (process_webhook a_world a_delivery empty).1).1.sent
    ≤ 1
process_webhook_once_example =
    process_webhook_once 1000 "cam:webhook:crm:e1" empty
      (process_webhook a_world a_delivery (process_webhook a_world a_delivery empty).1).1 refl
      (deliver a_world a_delivery (omega arith) (omega arith)
        (deliver a_world a_delivery (omega arith) (omega arith) start))

process_webhook-enqueued_example :
    (String.len a_delivery.raw_body ≤ 1048576)
    × IsSigned a_world a_delivery (signature_of a_delivery.headers)
    × IsFresh a_world (lookup "x-timestamp" a_delivery.headers)
    × IsNew a_world a_delivery empty
process_webhook-enqueued_example = process_webhook-enqueued a_world a_delivery empty accepted
