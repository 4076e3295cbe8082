-- ===== src/Qc/Privilege.antt =====
-- src/cam/core/services/qc/checks/privilege.py: the check of restricted documents. The texts of
-- reasons are kept to their fixed part.
use case_automation_mcp.Common.{
  ℕ, String, Bool, true, false, not, Option, none, some, List, [], ◌∷◌, any, ◌==◌, ◌||◌,
  if◌then◌else◌,
}
use case_automation_mcp.Qc.Types.{
  pass, fail, fail_or_pass, CheckResult, Document, VerificationPacket, Ran, result, Check,
}
pub mod Blocking
mod Tests

-- The active pack's policy: a further predicate that may only add a block. The label is in texts only.
pub record RestrictionPolicy : Type 0 where
  pub extra_block : VerificationPacket → Bool

abbrev is_participant : Option String → String → Bool
is_participant none r = false
is_participant (some client) r = client == r

pub has_unknown_recipient : VerificationPacket → Bool
has_unknown_recipient p = any (λ r. not (is_participant p.matter.client r)) p.intended_recipients

pub effective_external : VerificationPacket → Bool
unfolding has_unknown_recipient
effective_external p = p.external_bound || has_unknown_recipient p

pub has_restricted : VerificationPacket → Bool
has_restricted p = any (λ d. d.restricted) p.documents

abbrev pack_blocks : Option RestrictionPolicy → VerificationPacket → Bool
pack_blocks none p = false
pack_blocks (some policy) p = policy.extra_block p

pub privilege_result : Option RestrictionPolicy → VerificationPacket → CheckResult
unfolding has_restricted effective_external
privilege_result policy p =
    if not (has_restricted p)
    then record {
      check_id = "privilege";
      check_version = "1.0";
      verdict = pass;
      reason = "No restricted documents in packet.";
      skip_reason = none;
    }
    else if effective_external p || pack_blocks policy p
    then record {
      check_id = "privilege";
      check_version = "1.0";
      verdict = fail;
      reason = "Restricted document(s) cannot be routed to external recipients.";
      skip_reason = none;
    }
    else record {
      check_id = "privilege";
      check_version = "1.0";
      verdict = pass;
      reason = "Restricted documents are internal only.";
      skip_reason = none;
    }

unfoldable pub privilege_check : Option RestrictionPolicy → Check
unfolding privilege_result
privilege_check policy = record {
  id = "privilege";
  version = "1.0";
  applies_to = none;
  severity_policy = fail_or_pass;
  run = λ p. result (privilege_result policy p);
}
