-- ===== src/Connectors/Health/Tests.antt =====
-- Concrete breakers.
use case_automation_mcp.Common.{◌≤◌, true, ◌≡◌, ◌↔◌, refl, some, [], ◌∷◌, arith}
use case_automation_mcp.Connectors.Errors.{ConnectorError, transient, plain}
use case_automation_mcp.Connectors.Health.{
  ConnectorHealth, open_, new_health, state_is_open, record_failure, count_failure,
}
use case_automation_mcp.Connectors.Health.Laws.{WellFormed, failure, WellFormed-⇒}
use case_automation_mcp.Connectors.Health.Counting.{Event, success, tell_all, trailing, opens_iff}

abbrev a_fault : ConnectorError
a_fault = plain transient "case" "timeout"

abbrev a_breaker : ConnectorHealth
a_breaker = new_health "case" 1 60

WellFormed-⇒_example : WellFormed (record_failure 9 a_fault a_breaker)
unfolding WellFormed
WellFormed-⇒_example = WellFormed-⇒ (omega arith) (failure 9 a_fault a_breaker) (omega arith)

opened : (record_failure 9 a_fault a_breaker).state ≡ open_
unfolding record_failure count_failure
opened = refl

opened_then : (record_failure 9 a_fault a_breaker).opened_at ≡ some 9
unfolding record_failure count_failure
opened_then = refl

opens_iff_example :
    (state_is_open
        (tell_all
          (Event.failure 1 a_fault ∷ success ∷ Event.failure 2 a_fault ∷ [])
          (new_health "case" 2 60)).state
      ≡ true)
    ↔ (2 ≤ trailing (Event.failure 1 a_fault ∷ success ∷ Event.failure 2 a_fault ∷ []) 0)
opens_iff_example =
    opens_iff "case" 2 60 (Event.failure 1 a_fault ∷ success ∷ Event.failure 2 a_fault ∷ [])
      (omega arith)
