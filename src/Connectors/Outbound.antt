-- ===== src/Connectors/Outbound.antt =====
-- src/cam/connectors/middleware.py: `OutboundClient`. Times are ticks; time passes in requests and
-- in sleeps. Logs and metrics are left out.
use Prim.Native.String
use case_automation_mcp.Common.{
  ℕ, zero, suc, ◌+◌, ◌-◌, ◌*◌, ◌^◌, min, max, String, Bool, true, false, not, Option, none, some,
  List, [], ◌∷◌, ◌&&◌, ◌||◌, leb, ltb, if◌then◌else◌, Dict, lookup, insert, Outcome, ok, err, Exec,
  pure, raise, ◌>>=◌, ◌>>◌, truthy, is_some,
}
use case_automation_mcp.Json.{Json, obj, end}
use case_automation_mcp.Connectors.Errors.{
  ErrorClass, rate_limit, fatal, ConnectorError, is_retryable, plain, Response, Failure, response,
  timeout, network, unknown,
}
use case_automation_mcp.Connectors.Health.{ConnectorHealth, is_open, record_success, record_failure}
pub mod Retry
pub mod Replay
mod Tests

pub record RetryPolicy : Type 0 where
  pub max_attempts : ℕ
  pub base_delay : ℕ
  pub max_delay : ℕ
  pub total_deadline : ℕ

-- what httpx comes to: an answer, or an exception
pub data Answer : Type 0 where
  answered : Response → Answer
  threw : Failure → Answer

-- The client's classifier, the outside world by the number of requests sent, and the libraries.
pub record World : Type 0 where
  pub classify : Failure → String → ConnectorError
  pub answers : ℕ → Answer
  pub took : ℕ → ℕ
  pub uniform : ℕ → ℕ → ℕ  -- the draw below a ceiling
  pub uuid5 : String → String
  pub dumps : Json → String
  pub loads : String → Option Json
  pub spell : ℕ → String
  pub ticks_per_second : ℕ  -- at which the clock runs

-- a recorded result, and the time at which it expires
pub record StoredResult : Type 0 where
  pub value : Json
  pub expiry : ℕ

pub record Client : Type 0 where
  pub connector : String
  pub health : ConnectorHealth
  pub redis : Option (Dict StoredResult)
  pub now : ℕ
  pub sent : ℕ

-- `out_of_fuel` is no error of the program
pub data Raised : Type 0 where
  connector_error : ConnectorError → Raised
  out_of_fuel : Raised

abbrev pub Calling : Type 0 → Type 0
Calling A = Exec Raised Client A

abbrev text : String → String → String
text = String.◌++◌

unfoldable pub idem_redis_key : String → String → String
idem_redis_key connector idem_key = text "cam:idem:" (text connector (text ":" idem_key))

derive_idem_key : World → String → String → String → String
derive_idem_key w connector operation logical_args =
    w.uuid5 (text connector (text ":" (text operation (text ":" logical_args))))

abbrev last_or_fatal : String → Option ConnectorError → ConnectorError
last_or_fatal connector none = plain fatal connector "Circuit breaker is open."
last_or_fatal connector (some e) = e

-- `_guard_circuit`
pub guard_circuit : Calling Unit
guard_circuit m =
    let (is_open_now, h) = is_open m.now m.health in
    (
      if is_open_now then err (connector_error (last_or_fatal m.connector h.last_error)) else ok tt,
      record m { health = h },
    )

pub record Write : Type 0 where
  pub method : String
  pub url : String
  pub body : Json
  pub idem_key : Option String
  pub is_write : Bool
  pub operation : String

logical_args : World → Write → String
logical_args w q = text q.method (text ":" (text q.url (text ":" (w.dumps q.body))))

-- `_resolve_idem_key`
pub resolve_idem_key : World → Write → Client → Option String
unfolding derive_idem_key logical_args
resolve_idem_key w q m = if not q.is_write || not (is_some m.redis) then none else elim q.idem_key [
  | some k ↦ some k
  | none ↦ some (derive_idem_key w m.connector q.operation (logical_args w q))
]

pub is_success : Response → Bool
is_success r = leb 200 r.status_code && ltb r.status_code 300

pub judge : World → String → Answer → Outcome Raised Response
judge w connector (threw f) = err (connector_error (w.classify f connector))
judge w connector (answered r) =
    if is_success r then ok r else err (connector_error (w.classify (response r) connector))

-- `_single_attempt`
pub single_attempt : World → Calling Response
single_attempt w m = (
  judge w m.connector (w.answers m.sent),
  record m { sent = m.sent + 1; now = m.now + w.took m.sent },
)

pub fail_with : ConnectorError → Client → Client
fail_with e m = record m { health = record_failure m.now e m.health }

-- `_jitter_wait`
jitter_wait : World → ℕ → RetryPolicy → ℕ → ℕ
jitter_wait w draw p attempt = w.uniform (min p.max_delay (p.base_delay * 2 ^ attempt)) draw

abbrev at_least : ℕ → ErrorClass → Option ℕ → ℕ
at_least wait rate_limit (some t) = max wait t
at_least wait _ _ = wait

-- `asyncio.sleep(min(wait, remaining))`, before the deadline
pub sleep : World → RetryPolicy → ℕ → ℕ → ConnectorError → Client → Client
unfolding jitter_wait
sleep w p deadline attempt e m = record m {
  now =
      m.now
      + min (at_least (jitter_wait w m.sent p attempt) e.class_ e.retry_after) (deadline - m.now);
}

-- the `except` block; `again` is the next round of the loop
pub after_failure :
    World → RetryPolicy → ℕ → ℕ → ConnectorError → Calling Response → Calling Response
after_failure w p deadline attempt e again m =
    if not (is_retryable e.class_)
    then (err (connector_error e), m)
    else if leb p.max_attempts attempt
    then (
      err (
          connector_error (
            plain fatal m.connector
              (text "Retry exhausted after " (text (w.spell attempt) " attempts.")))),
      m,
    )
    else if leb deadline m.now
    then (err (connector_error (plain fatal m.connector "Total deadline exceeded mid-retry.")), m)
    else again (sleep w p deadline attempt e m)

-- a round, once its attempt is made
pub conclude :
    World → RetryPolicy → ℕ → ℕ → Calling Response → Outcome Raised Response → Calling Response
conclude w p deadline attempt again (ok r) m = (ok r, m)
conclude w p deadline attempt again (err out_of_fuel) m = (err out_of_fuel, m)
conclude w p deadline attempt again (err (connector_error e)) m =
    after_failure w p deadline attempt e again (fail_with e m)

-- a round of `while True`
pub round : World → RetryPolicy → ℕ → ℕ → Calling Response → Calling Response
round w p deadline attempt again m =
    if leb deadline m.now
    then (
      err (connector_error (plain fatal m.connector "Total deadline exceeded.")),
      fail_with (plain fatal m.connector "Total deadline exceeded.") m,
    )
    else conclude w p deadline attempt again (single_attempt w m).0 (single_attempt w m).1

-- the loop, after `attempt` rounds; the fuel bounds the rounds to come
pub loop : World → RetryPolicy → ℕ → ℕ → ℕ → Calling Response
loop w p deadline attempt zero m = (err out_of_fuel, m)
loop w p deadline attempt (suc fuel) m =
    round w p deadline (attempt + 1) (loop w p deadline (attempt + 1) fuel) m

-- `_execute_with_retry`: as many rounds as there are attempts, and one at least
pub execute_with_retry : World → RetryPolicy → Calling Response
execute_with_retry w p m = loop w p (m.now + p.total_deadline) 0 (max 1 p.max_attempts) m

abbrev or_empty : Option Json → Json
or_empty none = obj end
or_empty (some j) = j

pub result_data : World → Response → Json
result_data w r = if truthy r.content then or_empty (w.loads r.content) else obj end

abbrev pub idem_ttl_seconds : ℕ
idem_ttl_seconds = 86400

idem_set :
    String → Option String → StoredResult → Option (Dict StoredResult) → Option (Dict StoredResult)
idem_set connector none result redis = redis
idem_set connector (some k) result none = none
idem_set connector (some k) result (some d) =
    if truthy k then some (insert (idem_redis_key connector k) result d) else some d

-- `_record_success`
pub remember : World → Write → Option String → Response → Client → Client
unfolding result_data idem_set
remember w q key r m = record m {
  health = record_success m.health;
  redis =
      if q.is_write
      then idem_set m.connector key
          (record {
            value = result_data w r;
            expiry = m.now + idem_ttl_seconds * w.ticks_per_second;
          })
          m.redis
      else m.redis;
}

-- what Redis still has at that time
abbrev pub still_live : ℕ → Option StoredResult → Option Json
still_live now none = none
still_live now (some r) = if ltb now r.expiry then some r.value else none

pub idem_get : Client → Option String → Option Json
idem_get m none = none
idem_get m (some k) = elim m.redis [
  | none ↦ none
  | some d ↦ still_live m.now (lookup (idem_redis_key m.connector k) d)
]

-- httpx.Response(200, json=…)
abbrev pub replay : World → Json → Response
replay w j = record { status_code = 200; retry_after = none; content = w.dumps j }

pub perform : World → RetryPolicy → Write → Option String → Calling Response
perform w p q key = do r ← execute_with_retry w p; (λ m. (ok r, remember w q key r m))

pub replay_or_perform : World → RetryPolicy → Write → Option String → Calling Response
replay_or_perform w p q key m = elim (idem_get m key) [
  | some j ↦ (ok (replay w j), m)
  | none ↦ perform w p q key m
]

pub request : World → RetryPolicy → Write → Calling Response
request w p q = do guard_circuit; (λ m. replay_or_perform w p q (resolve_idem_key w q m) m)
