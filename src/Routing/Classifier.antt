-- ===== src/Routing/Classifier.antt =====
-- src/cam/core/workflows/document_routing/classifier.py. `str.lower` is a parameter.
use Prim.Native.String
use case_automation_mcp.Common.{
  ℕ, String, Bool, true, false, Option, none, some, List, [], ◌∷◌, leb, ltb, ◌&&◌, truthy,
  if◌then◌else◌,
}
use case_automation_mcp.Routing.Types.{Document, ClassificationSource, rule, extraction, fallback}
use case_automation_mcp.Routing.Config.{is_document_class, ClassificationRule, RoutingConfig}

-- an extracted field, a dict with two keys that may be missing
pub record ExtractionField : Type 0 where
  pub value : Option String
  pub confidence : Option ℕ

pub record Classification : Type 0 where
  pub class_name : String
  pub confidence : ℕ
  pub source : ClassificationSource

-- `sub in text`: `find` answers past the end where there is none
abbrev contains : String → String → Bool
contains text sub = leb (String.find text sub) (String.len text)

-- whether the name has one of the hints
has_hint : (String → String) → String → List String → Bool
has_hint lower doc_name_lower [] = false
has_hint lower doc_name_lower (hint ∷ hints) =
    if contains doc_name_lower (lower hint) then true else has_hint lower doc_name_lower hints

match_rules : (String → String) → String → List ClassificationRule → Option String
unfolding has_hint
match_rules lower doc_name_lower [] = none
match_rules lower doc_name_lower (r ∷ rules) =
    let later = match_rules lower doc_name_lower rules in
    if is_document_class r.class_name && has_hint lower doc_name_lower r.keyword_hints
    then some r.class_name
    else later

abbrev value_of : ExtractionField → String
value_of f = elim f.value [ some v ↦ v | none ↦ "" ]

abbrev confidence_of : ExtractionField → ℕ
confidence_of f = elim f.confidence [ some c ↦ c | none ↦ 0 ]

-- the loop over the extracted fields, with `best_class` and `best_confidence`
best_field : Option String → ℕ → List ExtractionField → Option String × ℕ
best_field best_class best_confidence [] = (best_class, best_confidence)
best_field best_class best_confidence (f ∷ fields) =
    let better = best_field (some (value_of f)) (confidence_of f) fields in
    let same = best_field best_class best_confidence fields in
    if is_document_class (value_of f) && ltb best_confidence (confidence_of f) then better else same

from_extraction : RoutingConfig → Option String × ℕ → Classification
from_extraction cfg (none, confidence) = record {
  class_name = "unknown";
  confidence = 0;
  source = fallback;
}
from_extraction cfg (some c, confidence) =
    if truthy c && leb cfg.classification_threshold confidence
    then record { class_name = c; confidence = confidence; source = extraction }
    else record { class_name = "unknown"; confidence = 0; source = fallback }

from_rules : (String → String) → Document → List ExtractionField → RoutingConfig → Classification
unfolding match_rules best_field from_extraction
from_rules lower document fields cfg =
    elim (match_rules lower (lower document.name) cfg.classification_rules) [
      | some c ↦ record { class_name = c; confidence = 90; source = rule }
      | none ↦ from_extraction cfg (best_field none 0 fields)
    ]

-- `document.classification`, where it is a document class
given_class : Option String → Option String
given_class none = none
given_class (some c) = if truthy c && is_document_class c then some c else none

unfoldable pub classify :
    (String → String) → Document → List ExtractionField → RoutingConfig → Classification
unfolding given_class from_rules
classify lower document fields cfg = elim (given_class document.classification) [
  | some c ↦ record { class_name = c; confidence = 100; source = rule }
  | none ↦ from_rules lower document fields cfg
]
