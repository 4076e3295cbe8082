-- ===== src/Connectors/Health.antt =====
-- src/cam/connectors/health.py: `ConnectorHealth`, the circuit breaker. Times are ticks of the
-- monotonic clock. Log lines and the metric of a transition leave no trace in the state.
use case_automation_mcp.Common.{
  ℕ, zero, suc, ◌+◌, ◌/◌, max, String, Bool, true, false, Option, none, some, leb, if◌then◌else◌,
  Dict, lookup, insert, remove,
}
use case_automation_mcp.Connectors.Errors.{ConnectorError}
pub mod Laws
pub mod Counting
mod Tests

pub data HealthState : Type 0 where
  healthy : HealthState
  degraded : HealthState
  open_ : HealthState
  half_open : HealthState

pub record ConnectorHealth : Type 0 where
  pub connector : String
  pub failure_threshold : ℕ
  pub cool_down : ℕ
  pub state : HealthState
  pub consecutive_failures : ℕ
  pub opened_at : Option ℕ
  pub last_error : Option ConnectorError

abbrev pub new_health : String → ℕ → ℕ → ConnectorHealth
new_health connector threshold cool_down = record {
  connector = connector;
  failure_threshold = threshold;
  cool_down = cool_down;
  state = healthy;
  consecutive_failures = 0;
  opened_at = none;
  last_error = none;
}

-- `now - opened_at >= cool_down`, where it was opened
abbrev cooled : ℕ → ℕ → Option ℕ → Bool
cooled now cool_down none = false
cooled now cool_down (some t) = leb (t + cool_down) now

abbrev probing : ℕ → ConnectorHealth → HealthState → HealthState
probing now h open_ = if cooled now h.cool_down h.opened_at then half_open else open_
probing now h s = s

-- `_maybe_transition_to_half_open`, which every read of the property `state` calls
unfoldable pub read_state : ℕ → ConnectorHealth → ConnectorHealth
read_state now h = record h { state = probing now h h.state }

abbrev pub state_is_open : HealthState → Bool
state_is_open open_ = true
state_is_open _ = false

-- the property `is_open`: the answer, and the breaker after the read
unfoldable pub is_open : ℕ → ConnectorHealth → Bool × ConnectorHealth
unfolding read_state
is_open now h = let h' = read_state now h in (state_is_open h'.state, h')

abbrev closing : HealthState → Option ℕ → Option ℕ
closing healthy t = t
closing _ t = none

pub record_success : ConnectorHealth → ConnectorHealth
record_success h = record h {
  consecutive_failures = 0;
  last_error = none;
  state = healthy;
  opened_at = closing h.state h.opened_at;
}

-- a healthy or degraded breaker that has counted one more failure
count_failure : ℕ → ConnectorHealth → ConnectorHealth
count_failure now h =
    if leb h.failure_threshold h.consecutive_failures
    then record h { state = open_; opened_at = some now }
    else if leb (max 1 (h.failure_threshold / 2)) h.consecutive_failures
    then record h { state = degraded }
    else h

-- `h` is the breaker with the error and the failure counted
abbrev react : ℕ → ConnectorHealth → HealthState → ConnectorHealth
react now h half_open = record h { state = open_; opened_at = some now }
react now h open_ = h
react now h healthy = count_failure now h
react now h degraded = count_failure now h

pub record_failure : ℕ → ConnectorError → ConnectorHealth → ConnectorHealth
unfolding count_failure
record_failure now e h =
    react now (record h { last_error = some e; consecutive_failures = h.consecutive_failures + 1 })
      h.state

-- `_HEALTH`, one breaker for each connector of the process
abbrev pub Registry : Type 0
Registry = Dict ConnectorHealth

pub get_health : String → ℕ → ℕ → Registry → ConnectorHealth × Registry
get_health connector threshold cool_down r = elim (lookup connector r) [
  | some h ↦ (h, r)
  | none ↦ (
    new_health connector threshold cool_down,
    insert connector (new_health connector threshold cool_down) r,
  )
]

pub reset_health : String → Registry → Registry
reset_health connector r = remove connector r
