-- ===== src/Routing/Types.antt =====
-- src/cam/core/workflows/document_routing/types.py, and the fields of `Document`, `Matter` and `ACL`
-- of src/cam/core/domain/models.py that routing reads. A confidence is a number of hundredths.
-- Reasons are left out.
use case_automation_mcp.Common.{ℕ, String, Bool, Option, List, Dict}

pub record Document : Type 0 where
  pub id : String
  pub name : String
  pub classification : Option String
  pub version : ℕ
  pub privileged : Bool
  pub checksum : String

pub record Matter : Type 0 where
  pub id : String
  pub reference : String
  pub responsible : Option String
  pub external_ids : Dict String

pub record Acl : Type 0 where
  pub principals : List String
  pub permission : String
  pub external : Bool

pub record RouteOptions : Type 0 where
  pub force_review : Bool
  pub dry_run : Bool

pub data DestinationKind : Type 0 where
  folder : DestinationKind
  review_queue : DestinationKind

pub record RoutingDestination : Type 0 where
  pub kind : DestinationKind
  pub matter_id : Option String
  pub folder_path : Option String  -- its field `folder`

pub data GateVerdict : Type 0 where
  pass : GateVerdict
  warn : GateVerdict
  fail : GateVerdict

pub data ClassificationSource : Type 0 where
  rule : ClassificationSource
  extraction : ClassificationSource
  fallback : ClassificationSource

pub data RouteOutcome : Type 0 where
  moved : RouteOutcome
  queued : RouteOutcome
  blocked : RouteOutcome
  duplicate : RouteOutcome
  dry_run_only : RouteOutcome

pub record RoutingDecision : Type 0 where
  pub document_id : String
  pub idempotency_key : String
  pub classification : String
  pub classification_confidence : ℕ
  pub classification_source : ClassificationSource
  pub name : String
  pub destination : RoutingDestination
  pub acl_digest : String
  pub privileged : Bool
  pub recipient_id : Option String
  pub gate_verdict : GateVerdict
  pub outcome : RouteOutcome
  pub routing_intent_version : String

pub record RouteResult : Type 0 where
  pub document_id : String
  pub classification : String
  pub classification_confidence : ℕ
  pub name : String
  pub destination : RoutingDestination
  pub privileged : Bool
  pub gate_verdict : GateVerdict
  pub outcome : RouteOutcome
  pub idempotency_key : String
