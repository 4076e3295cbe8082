-- ===== src/Routing/Config.antt =====
-- src/cam/core/workflows/document_routing/config.py, but for `NamingTemplate.render`, whose parts are
-- `str.format` and `re.sub`.
use case_automation_mcp.Common.{
  ℕ, String, Bool, true, false, not, Option, none, some, List, [], ◌∷◌, Dict, lookup, is_some, all,
  any, ◌==◌, Outcome, ok, err, if◌then◌else◌, truthy,
}
pub mod Laws

abbrev pub document_classes : List String
document_classes =
    "engagement_letter" ∷ "court_filing" ∷ "id_document" ∷ "correspondence" ∷ "internal_memo"
    ∷ "form_filing" ∷ "unknown" ∷ []

-- `c in DOCUMENT_CLASSES`
unfoldable pub is_document_class : String → Bool
is_document_class c = any (λ k. k == c) document_classes

pub record ClassificationRule : Type 0 where
  pub class_name : String
  pub keyword_hints : List String

pub record RoutingConfig : Type 0 where
  pub classes : List String
  pub classification_rules : List ClassificationRule
  pub folder_map : Dict String
  pub naming_pattern : String
  pub class_policies : Dict (List String)
  pub classification_threshold : ℕ
  pub routing_intent_version : String

unfoldable pub folder_for : String → Dict String → Option String
folder_for class_name entries = lookup class_name entries

or_nobody : Option (List String) → List String
or_nobody none = []
or_nobody (some l) = l

unfoldable pub allowed_principals_for : String → Dict (List String) → List String
unfolding or_nobody
allowed_principals_for class_name policies = or_nobody (lookup class_name policies)

-- `ValueError`
pub data TotalityError : Type 0 where
  missing_entries : TotalityError

abbrev or_document_classes : Option (List String) → List String
or_document_classes none = document_classes
or_document_classes (some l) = l

-- `validate_totality`
unfoldable pub validate_totality : Option (List String) → Dict String → Outcome TotalityError Unit
validate_totality classes entries =
    if all (λ c. is_some (lookup c entries)) (or_document_classes classes)
    then ok tt
    else err missing_entries

-- the constructor, with its `__post_init__`
unfoldable pub make_config : RoutingConfig → Outcome TotalityError RoutingConfig
make_config cfg = elim (validate_totality (some cfg.classes) cfg.folder_map) [
  | ok _ ↦ ok cfg
  | err e ↦ err e
]

-- `folder_for("unknown") or "review_queue"`
pub review_queue_folder : RoutingConfig → String
review_queue_folder cfg = elim (folder_for "unknown" cfg.folder_map) [
  | some f ↦ if truthy f then f else "review_queue"
  | none ↦ "review_queue"
]
