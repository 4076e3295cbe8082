-- ===== src/Routing/Service.antt =====
-- src/cam/core/workflows/document_routing/service.py. SHA-256, texts, the date and the docstore are
-- parameters. The run id and logs are left out.
use Prim.Native.String
use case_automation_mcp.Common.{
  ℕ, String, Bool, true, false, Option, none, some, List, [], ◌∷◌, ◌++◌, Dict, lookup, insert,
  values, length, ltb, ◌==◌, ◌||◌, is_some, if◌then◌else◌,
}
use case_automation_mcp.Routing.Types.{
  Document, Matter, Acl, RouteOptions, DestinationKind, folder, review_queue, RoutingDestination,
  GateVerdict, fail, RouteOutcome, moved, queued, blocked, duplicate, dry_run_only, RoutingDecision,
  RouteResult,
}
use case_automation_mcp.Routing.Config.{RoutingConfig}
use case_automation_mcp.Routing.Classifier.{ExtractionField, Classification, classify}
use case_automation_mcp.Routing.Resolver.{derive_name, resolve}
use case_automation_mcp.Routing.Acl.{Texts, build}
use case_automation_mcp.Routing.PrivilegeGate.{check, is_fail}
pub mod Laws
pub mod Once
pub mod Sealed
pub mod Filing
mod Tests

-- The libraries, the date, and the docstore by the number of moves asked of it so far: whether the
-- move succeeds.
pub record World : Type 0 where
  pub lower : String → String
  pub format : String → String → String → String → ℕ → String
  pub sanitise : String → String
  pub today : String
  pub texts : Texts
  pub sha256 : String → ℕ → String  -- the first digits of the digest
  pub repr : List String → String
  pub accepts : ℕ → Bool

-- a call of `docstore.move`
pub record Move : Type 0 where
  pub document_id : String
  pub target : String
  pub acl : Acl

pub record AuditCall : Type 0 where
  pub document_id : String
  pub idem_key : String
  pub classification : String
  pub destination_kind : DestinationKind
  pub outcome : RouteOutcome
  pub gate_verdict : GateVerdict
  pub acl_digest : String

-- `RoutingDecisionStore`, the calls of the docstore, and the calls of `audit_fn` if there is one,
-- newest first
pub record Service : Type 0 where
  pub decisions : Dict RoutingDecision
  pub moves : List Move
  pub audits : Option (List AuditCall)

pub all_decisions : Service → List RoutingDecision
all_decisions s = values s.decisions

pub record Request : Type 0 where
  pub document : Document
  pub matter : Matter
  pub options : RouteOptions
  pub extraction_fields : List ExtractionField
  pub recipient_id : Option String

abbrev text : String → String → String
text = String.◌++◌

-- `recipient_id or ''`
abbrev or_empty : Option String → String
or_empty none = ""
or_empty (some r) = r

pub derive_idem_key : World → RoutingConfig → Request → String
derive_idem_key w cfg q =
    w.sha256
      (text q.document.id (
        text ":" (
          text q.document.checksum
            (text ":" (text (or_empty q.recipient_id) (text ":" cfg.routing_intent_version))))))
      16

pub decision_to_result : RoutingDecision → RouteOutcome → String → RouteResult
decision_to_result d o idem_key = record {
  document_id = d.document_id;
  classification = d.classification;
  classification_confidence = d.classification_confidence;
  name = d.name;
  destination = d.destination;
  privileged = d.privileged;
  gate_verdict = d.gate_verdict;
  outcome = o;
  idempotency_key = idem_key;
}

-- `_write_audit`; what `audit_fn` raises is swallowed
pub write_audit : RoutingDecision → RouteOutcome → Service → Service
write_audit d o s = elim s.audits [
  | none ↦ s
  | some calls ↦ record s {
    audits = some (
        record {
          document_id = d.document_id;
          idem_key = d.idempotency_key;
          classification = d.classification;
          destination_kind = d.destination.kind;
          outcome = o;
          gate_verdict = d.gate_verdict;
          acl_digest = d.acl_digest;
        }
        ∷ calls);
  }
]

-- `save`
pub save : RoutingDecision → Service → Service
save d s = record s { decisions = insert d.idempotency_key d s.decisions }

-- the decision is saved, audited and returned
pub settle : RoutingDecision → Service → RouteResult × Service
unfolding write_audit save
settle d s = (decision_to_result d d.outcome d.idempotency_key, write_audit d d.outcome (save d s))

abbrev or_review_queue : Option String → String
or_review_queue none = "review_queue"
or_review_queue (some f) = if f == "" then "review_queue" else f

-- the call of `docstore.move`
pub move : World → Move → Service → RouteOutcome × Service
move w m s =
    (if w.accepts (length s.moves) then moved else blocked, record s { moves = m ∷ s.moves })

low_confidence : RoutingConfig → Classification → Bool
low_confidence cfg c = (c.class_name == "unknown") || ltb c.confidence cfg.classification_threshold

pub destination_of : RoutingConfig → Request → Classification → RoutingDestination
unfolding low_confidence
destination_of cfg q c =
    resolve c.class_name (some q.matter) (q.options.force_review || low_confidence cfg c) cfg

pub acl_of : World → RoutingConfig → Request → Classification → Acl
acl_of w cfg q c = build w.texts q.matter c.class_name cfg

pub verdict_of : Request → RoutingDestination → GateVerdict
verdict_of q d = check q.document d q.recipient_id (is_some q.recipient_id)

-- the decision, with the outcome still to be found
pub decide : World → RoutingConfig → Request → Classification → RouteOutcome → RoutingDecision
decide w cfg q c o = record {
  document_id = q.document.id;
  idempotency_key = derive_idem_key w cfg q;
  classification = c.class_name;
  classification_confidence = c.confidence;
  classification_source = c.source;
  name = derive_name w.format w.sanitise w.today q.document c.class_name q.matter cfg;
  destination = destination_of cfg q c;
  acl_digest = w.sha256 (w.repr (acl_of w cfg q c).principals) 12;
  privileged = q.document.privileged;
  recipient_id = q.recipient_id;
  gate_verdict = verdict_of q (destination_of cfg q c);
  outcome = o;
  routing_intent_version = cfg.routing_intent_version;
}

pub the_move : World → RoutingConfig → Request → Classification → Move
the_move w cfg q c = record {
  document_id = q.document.id;
  target = or_review_queue (destination_of cfg q c).folder_path;
  acl = acl_of w cfg q c;
}

-- step 10
pub file_document :
    World → RoutingConfig → Request → Classification → Service → RouteResult × Service
file_document w cfg q c s =
    let (o, after) = move w (the_move w cfg q c) s in settle (decide w cfg q c o) after

abbrev pub is_review : DestinationKind → Bool
is_review review_queue = true
is_review folder = false

-- steps 7 to 10
pub dispatch : World → RoutingConfig → Request → Classification → Service → RouteResult × Service
dispatch w cfg q c s =
    if is_fail (verdict_of q (destination_of cfg q c))
    then settle (decide w cfg q c blocked) s
    else if is_review (destination_of cfg q c).kind
    then settle (decide w cfg q c queued) s
    else if q.options.dry_run
    then settle (decide w cfg q c dry_run_only) s
    else file_document w cfg q c s

-- what is done, by what the store has under the key
pub answer :
    World → RoutingConfig → Request → Service → Option RoutingDecision → RouteResult × Service
answer w cfg q s none = dispatch w cfg q (classify w.lower q.document q.extraction_fields cfg) s
answer w cfg q s (some d) =
    (decision_to_result d duplicate (derive_idem_key w cfg q), write_audit d duplicate s)

pub route : World → RoutingConfig → Request → Service → RouteResult × Service
unfolding answer
route w cfg q s = answer w cfg q s (lookup (derive_idem_key w cfg q) s.decisions)
