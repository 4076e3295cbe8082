-- ===== src/Audit/Tests.antt =====
-- Concrete logs.
use case_automation_mcp.Common.{◌≡◌, ◌↔◌, refl, none, []}
use case_automation_mcp.Json.{null}
use case_automation_mcp.Audit.{
  Hashing, Entry, Log, genesis_hash, compute_hash, expected_hash, record_body, record_entry,
  new_row, get_range, check_rows, verify, intact,
}
use case_automation_mcp.Audit.Chain.{Chained, verify_iff, verify-record_entry}
use case_automation_mcp.Audit.Evidence.{NoCollision, Apart, SameHistory, verify-SameHistory}

abbrev a_hashing : Hashing
a_hashing = record { sha256 = λ s. s; canonical = λ j. "body"; isoformat = λ t. "now" }

abbrev an_entry : Entry
an_entry = record {
  actor = "jo";
  action = "gate.approved";
  inputs = null;
  outputs = null;
  approval = null;
  run_id = none;
}

abbrev empty_log : Log
empty_log = record { rows = []; next_id = 1 }

abbrev a_log : Log
a_log = (record_entry a_hashing 5 an_entry empty_log).1

good : verify a_hashing none none a_log ≡ intact
unfolding verify get_range check_rows record_entry new_row expected_hash compute_hash record_body
good = refl

verify_iff_example :
    (verify a_hashing none none a_log ≡ intact) ↔ Chained a_hashing genesis_hash a_log.rows
verify_iff_example = verify_iff a_hashing a_log

verify-record_entry_example :
    verify a_hashing none none (record_entry a_hashing 6 an_entry a_log).1 ≡ intact
verify-record_entry_example = verify-record_entry a_hashing 6 an_entry a_log good

apart : NoCollision a_hashing a_log.rows a_log.rows
unfolding NoCollision Apart record_entry
apart = (((λ h. refl, λ h. refl), tt), tt)

verify-SameHistory_example : SameHistory a_log.rows a_log.rows
verify-SameHistory_example = verify-SameHistory a_hashing a_log a_log good good refl refl apart
