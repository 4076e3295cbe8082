-- ===== src/Qc/Types.antt =====
-- src/cam/core/services/qc/types.py and packet.py: what a check is given and what it answers. A
-- packet keeps the fields that the modelled checks read. Evidence and durations are left out.
use case_automation_mcp.Common.{String, Bool, true, false, Option, List, [], ◌∷◌, elem, ◌||◌, Dict}

pub data Verdict : Type 0 where
  pass : Verdict
  warn : Verdict
  fail : Verdict
  skipped : Verdict

unfoldable pub Verdict-discrete : Discrete Verdict
Verdict-discrete = hlevel

pub data Aggregate : Type 0 where
  all_pass : Aggregate
  pass_with_warnings : Aggregate
  block : Aggregate

pub data SkipReason : Type 0 where
  not_applicable : SkipReason
  field_absent : SkipReason
  disabled : SkipReason
  unsupported_packet_kind : SkipReason

-- `SeverityPolicy`, by its field `allowed`
abbrev pub SeverityPolicy : Type 0
SeverityPolicy = List Verdict

abbrev pub is_skipped : Verdict → Bool
is_skipped skipped = true
is_skipped _ = false

unfoldable pub allows : SeverityPolicy → Verdict → Bool
unfolding Verdict-discrete
allows policy v = elem Verdict-discrete v policy || is_skipped v

abbrev pub fail_or_pass : SeverityPolicy
fail_or_pass = pass ∷ fail ∷ skipped ∷ []

pub record CheckResult : Type 0 where
  pub check_id : String
  pub check_version : String
  pub verdict : Verdict
  pub reason : String
  pub skip_reason : Option SkipReason

pub record Document : Type 0 where
  pub id : String
  pub restricted : Bool

pub record TemplateBinding : Type 0 where
  pub template_name : String
  pub required_vars : List String
  pub resolved_vars : Dict (Option String)

pub record Matter : Type 0 where
  pub id : String
  pub reference : String
  pub title : String
  pub status : String
  pub client : Option String  -- the id of the client

pub record VerificationPacket : Type 0 where
  pub packet_id : String
  pub run_id : Option String
  pub kind : String
  pub matter : Matter
  pub documents : List Document
  pub intended_recipients : List String  -- by id
  pub template_bindings : List TemplateBinding
  pub external_bound : Bool

-- What a call of a check comes to within its time: a result, an exception of that name, or none.
pub data Ran : Type 0 where
  result : CheckResult → Ran
  raised : String → Ran
  timed_out : Ran

-- the protocol `Check`
pub record Check : Type 0 where
  pub id : String
  pub version : String
  pub applies_to : Option (List String)
  pub severity_policy : SeverityPolicy
  pub run : VerificationPacket → Ran

pub record QcReport : Type 0 where
  pub packet_id : String
  pub run_id : Option String
  pub results : List CheckResult
  pub aggregate : Aggregate
  pub checks_selected : List String
  pub checks_skipped : Dict SkipReason
