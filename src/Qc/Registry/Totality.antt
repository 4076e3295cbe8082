-- ===== src/Qc/Registry/Totality.antt =====
-- What becomes of the requested checks.
use case_automation_mcp.Common.{
  String, true, ◌≡◌, ◌⊎◌, Option, some, List, map, In, is_some, Dict, lookup,
}
use case_automation_mcp.Qc.Types.{SkipReason, VerificationPacket, Check, QcReport}
use case_automation_mcp.Qc.Registry.{choose, settle_check}

unfoldable pub Skipped : String → Dict SkipReason → Type 0
Skipped id d = is_some (lookup id d) ≡ true

-- a check with that id was selected, and its result on the packet is in the report
pub WasRun : VerificationPacket → QcReport → String → Type 0
WasRun p rep id =
    (c : Check) × (c.id ≡ id)
    × In id rep.checks_selected
    × In (settle_check c (c.run p)) rep.results

-- run, or skipped with a reason
pub Answered : VerificationPacket → QcReport → String → Type 0
Answered p rep id = WasRun p rep id ⊎ Skipped id rep.checks_skipped

-- every check stands under its own id
Named : Dict Check → Type 0
Named d = (id : String) (c : Check) → lookup id d ≡ some c → c.id ≡ id

abbrev Chosen : Dict Check → List String → Dict SkipReason → String → Type 0
Chosen d ids s id =
    In id (map (λ c. c.id) (choose d ids s).checks) ⊎ Skipped id (choose d ids s).skips
