-- ===== src/Connectors/Webhook.antt =====
-- src/cam/connectors/webhook/pipeline.py and models.py. Bodies are texts, of which the bytes count.
-- HMAC, JSON, `float`, the normaliser of a connector, Redis and the sink are parameters. Times are
-- microseconds. Reasons, logs and metrics are left out.
use Prim.Native.String
use case_automation_mcp.Common.{
  ℕ, suc, ◌+◌, ◌-◌, ◌*◌, String, Bool, true, false, not, ◌&&◌, Option, none, some, List, [], ◌∷◌,
  Dict, lookup, insert, is_some, truthy, leb, ltb, length, ◌==◌, if◌then◌else◌,
}
use case_automation_mcp.Json.{Json}
pub mod Once
pub mod Signed
mod Tests

pub record Event : Type 0 where
  pub id : String
  pub connector : String
  pub provider_event_id : String
  pub kind : String  -- its field `type`
  pub matter_ref : Option String
  pub payload : Json

pub data Decision : Type 0 where
  rejected_oversized : Decision
  rejected_bad_signature : Decision
  dropped_unknown_type : Decision
  duplicate_ignored : Decision
  redis_unavailable : Decision
  enqueue_failed : Decision
  enqueued : Decision

-- what `float` reads, in microseconds from the epoch
pub data Stamp : Type 0 where
  not_a_number : Stamp
  infinite : Stamp
  since_epoch : ℕ → Stamp
  before_epoch : ℕ → Stamp

-- The libraries, the clock, and the outside: whether Redis answers at its nth use, and
-- whether the sink accepts its nth event.
pub record World : Type 0 where
  pub hmac : String → String → String
  pub loads : String → Option Json
  pub float : String → Option Stamp
  pub now : ℕ
  pub redis_answers : ℕ → Bool
  pub accepts : ℕ → Bool

-- the keys in Redis with the times at which they expire, the number of its uses, and the events
-- given to the sink with their keys, newest first
pub record Gateway : Type 0 where
  pub keys : Dict ℕ
  pub uses : ℕ
  pub sent : List (String × Event)

pub record Delivery : Type 0 where
  pub connector_name : String
  pub raw_body : String
  pub headers : Dict String
  pub secret : String
  pub normaliser : String → Json → Option Event

abbrev pub max_body_bytes : ℕ
max_body_bytes = 1048576

abbrev pub replay_window : ℕ
replay_window = 300

abbrev pub dedup_ttl_seconds : ℕ
dedup_ttl_seconds = 604800

abbrev pub microseconds : ℕ
microseconds = 1000000

-- `not abs(now - ts) > REPLAY_WINDOW_SECONDS`, which holds of a NaN
pub is_near : ℕ → Stamp → Bool
is_near now not_a_number = true
is_near now infinite = false
is_near now (since_epoch ts) = leb ((now - ts) + (ts - now)) (replay_window * microseconds)
is_near now (before_epoch ts) = leb (now + ts) (replay_window * microseconds)

-- the time is in the window, if there is one
pub is_fresh : World → Option String → Bool
unfolding is_near
is_fresh w none = true
is_fresh w (some header) = elim (w.float header) [ none ↦ false | some ts ↦ is_near w.now ts ]

pub is_signed : World → String → String → String → Bool
is_signed w raw_body signature secret = w.hmac secret raw_body == signature

pub verify_signature : World → String → Option String → String → Option String → Bool
verify_signature w raw_body none secret timestamp = false
verify_signature w raw_body (some signature) secret timestamp =
    truthy signature && is_fresh w timestamp && is_signed w raw_body signature secret

abbrev text : String → String → String
text = String.◌++◌

pub dedup_key : String → String → String
dedup_key connector id = text "cam:webhook:" (text connector (text ":" id))

-- `headers.get(a) or headers.get(b)`
pub signature_of : Dict String → Option String
signature_of headers = elim (lookup "x-hub-signature-256" headers) [
  | some s ↦ if truthy s then some s else lookup "x-signature" headers
  | none ↦ lookup "x-signature" headers
]

abbrev used : Gateway → Gateway
used g = record g { uses = g.uses + 1 }

-- a key that is set and has not expired
abbrev pub is_held : ℕ → Option ℕ → Bool
is_held now none = false
is_held now (some expiry) = ltb now expiry

-- step 5
pub enqueue : World → String → Event → Gateway → Decision × Gateway
enqueue w key e g = (
  if w.accepts (length g.sent) then enqueued else enqueue_failed,
  record g { sent = (key, e) ∷ g.sent },
)

-- `mark_processed`, and the rest
pub mark_and_enqueue : World → String → Event → Gateway → Decision × Gateway
unfolding enqueue
mark_and_enqueue w key e g =
    if w.redis_answers g.uses
    then enqueue w key e
        (record (used g) { keys = insert key (w.now + dedup_ttl_seconds * microseconds) g.keys })
    else (redis_unavailable, used g)

-- step 4
pub deduplicate : World → String → Event → Gateway → Decision × Gateway
unfolding mark_and_enqueue
deduplicate w key e g =
    if not (w.redis_answers g.uses)
    then (redis_unavailable, used g)
    else if is_held w.now (lookup key g.keys)
    then (duplicate_ignored, used g)
    else mark_and_enqueue w key e (used g)

pub accept_event : World → String → Option Event → Gateway → Decision × Gateway
unfolding deduplicate dedup_key
accept_event w connector none g = (dropped_unknown_type, g)
accept_event w connector (some e) g = deduplicate w (dedup_key connector e.provider_event_id) e g

-- steps 2 and 3
pub parse_body : World → Delivery → Option Json → Gateway → Decision × Gateway
unfolding accept_event
parse_body w q none g = (rejected_bad_signature, g)
parse_body w q (some payload) g =
    accept_event w q.connector_name (q.normaliser q.connector_name payload) g

pub process_webhook : World → Delivery → Gateway → Decision × Gateway
unfolding parse_body verify_signature is_fresh is_signed signature_of
process_webhook w q g =
    if ltb max_body_bytes (String.len q.raw_body)
    then (rejected_oversized, g)
    else if not (
        verify_signature w q.raw_body (signature_of q.headers) q.secret
          (lookup "x-timestamp" q.headers))
    then (rejected_bad_signature, g)
    else parse_body w q (w.loads q.raw_body) g
