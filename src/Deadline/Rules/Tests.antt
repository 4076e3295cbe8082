-- ===== src/Deadline/Rules/Tests.antt =====
-- Two versions of a rule.
use case_automation_mcp.Common.{◌≡◌, refl, none, some, List, [], ◌∷◌, lookup, insert, ok}
use case_automation_mcp.Deadline.Fixtures.{a_rule}
use case_automation_mcp.Deadline.Rules.{entries, register_rule, has_version, append_version, active}
use case_automation_mcp.Deadline.Rules.Versions.{Registration, run}

abbrev twice : List Registration
twice =
    record { rule = a_rule; version = none; hash = "v1" }
    ∷ record { rule = a_rule; version = none; hash = "v1" }
    ∷ record { rule = record a_rule { trigger = "receipt_date" }; version = some "v2"; hash = "h" }
    ∷ []

the_last_one : active "r" "US" (run twice []) ≡ ok (record a_rule { trigger = "receipt_date" })
unfolding active run register_rule append_version has_version entries lookup insert
the_last_one = refl
