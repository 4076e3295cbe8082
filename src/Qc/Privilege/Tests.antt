-- ===== src/Qc/Privilege/Tests.antt =====
-- Concrete packets.
use mathlib.Core.Option.{some_inj}
use case_automation_mcp.Common.{
  eq_iff, true, false, ◌≡◌, refl, none, some, [], ◌∷◌, Dict, lookup, inl, inr,
}
use case_automation_mcp.Qc.Types.{
  warn, block, fail_or_pass, CheckResult, VerificationPacket, Check, raised,
}
use case_automation_mcp.Qc.Registry.{aggregate, run_each, run_checks}
use case_automation_mcp.Qc.Registry.Aggregation.{Misbehaves, run_each-fail_closed}
use case_automation_mcp.Qc.Privilege.{privilege_check}
use case_automation_mcp.Qc.Privilege.Blocking.{Leaks, run_checks-Leaks}

abbrev a_packet : VerificationPacket
a_packet = record {
  packet_id = "p";
  run_id = none;
  kind = "email_send";
  matter = record { id = "m"; reference = "M-1"; title = "t"; status = "open"; client = some "c1" };
  documents = record { id = "d"; restricted = true } ∷ [];
  intended_recipients = "c1" ∷ "opponent" ∷ [];
  template_bindings = [];
  external_bound = false;
}

abbrev faulty : Check
faulty = record {
  id = "faulty";
  version = "1.0";
  applies_to = none;
  severity_policy = fail_or_pass;
  run = λ p. raised "ValueError";
}

abbrev a_warning : CheckResult
a_warning = record {
  check_id = "x";
  check_version = "1.0";
  verdict = warn;
  reason = "";
  skip_reason = none;
}

run_each-fail_closed_example :
    aggregate (run_each a_packet (privilege_check none ∷ faulty ∷ [])) ≡ block
unfolding Misbehaves
run_each-fail_closed_example =
    run_each-fail_closed a_packet faulty (privilege_check none ∷ faulty ∷ []) (inr (inl refl)) tt

abbrev a_registry : Dict Check
a_registry = ("faulty", faulty) ∷ ("privilege", privilege_check none) ∷ []

leaking : Leaks a_packet
leaking = record {
  restricted = inl refl;
  leaves = inr (inr (inl (λ e. cc ((eq_iff "c1" "opponent").1 (some_inj.0 e)))));
}

run_checks-Leaks_example : (run_checks a_packet none a_registry).aggregate ≡ block
unfolding lookup
run_checks-Leaks_example = run_checks-Leaks none a_packet a_registry refl leaking
