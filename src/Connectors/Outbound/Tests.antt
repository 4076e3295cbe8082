-- ===== src/Connectors/Outbound/Tests.antt =====
-- Concrete runs of the client: a time out, and an answer at the second attempt.
use case_automation_mcp.Common.{
  some, arith, ℕ, suc, zero, true, ◌≡◌, refl, none, some, [], Outcome, ok, ends_in, lookup,
}
use case_automation_mcp.Json.{null}
use case_automation_mcp.Connectors.Errors.{Response, Texts, timeout, transient, plain}
use case_automation_mcp.Connectors.Health.{new_health, is_open, read_state}
use case_automation_mcp.Connectors.Outbound.{
  World, Client, Raised, RetryPolicy, Write, Answer, answered, threw, execute_with_retry, loop,
  round, conclude, after_failure, single_attempt, judge, is_success, sleep, fail_with, request,
  guard_circuit, resolve_idem_key, replay_or_perform, perform, replay, idem_get, result_data,
}
use case_automation_mcp.Connectors.Outbound.Retry.{Ends, execute_with_retry-Ends}
use case_automation_mcp.Connectors.Outbound.Replay.{request_once}

abbrev fine : Response
fine = record { status_code = 201; retry_after = none; content = "" }

abbrev busy : Response
busy = record { status_code = 503; retry_after = none; content = "" }

abbrev texts : Texts
texts = record { read_float = λ s. none; spell = λ n. "n" }

abbrev second_time : ℕ → Answer
second_time zero = threw timeout
second_time (suc n) = answered fine

abbrev a_world : World
a_world = record {
  classify = λ f c. plain transient c "Request timed out.";
  answers = second_time;
  took = λ n. 1;
  uniform = λ ceiling n. ceiling;
  uuid5 = λ s. s;
  dumps = λ j. "{}";
  loads = λ s. none;
  spell = λ n. "n";
  ticks_per_second = 1;
}

abbrev a_policy : RetryPolicy
a_policy = record { max_attempts = 3; base_delay = 1; max_delay = 4; total_deadline = 100 }

abbrev a_client : Client
a_client = record {
  connector = "case";
  health = new_health "case" 5 60;
  redis = some [];
  now = 0;
  sent = 0;
}

abbrev a_write : Write
a_write = record {
  method = "POST";
  url = "u";
  body = null;
  idem_key = some "k";
  is_write = true;
  operation = "create";
}

execute_with_retry-Ends_example : Ends 3 (execute_with_retry a_world a_policy a_client)
execute_with_retry-Ends_example = execute_with_retry-Ends a_world a_policy a_client

abbrev first : Outcome Raised Response × Client
first = request a_world a_policy a_write a_client

answered_at_last : first.0 ≡ ok fine
unfolding request guard_circuit is_open read_state replay_or_perform resolve_idem_key idem_get
    perform execute_with_retry loop round single_attempt judge conclude after_failure is_success
    sleep fail_with lookup
answered_at_last = refl

unrecorded : idem_get a_client (some "k") ≡ none
unfolding idem_get lookup
unrecorded = refl

request_once_example :
    request a_world a_policy a_write (record first.1 { now = 500 })
    ≡ (ok (replay a_world (result_data a_world fine)), record first.1 { now = 500 })
request_once_example =
    request_once a_world a_world a_policy a_policy a_write "k" [] a_client first.1 fine 500 refl
      refl refl refl unrecorded (ends_in _ answered_at_last) (omega (arith))
