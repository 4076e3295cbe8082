-- ===== src/Routing/Service/Tests.antt =====
-- Routing on concrete documents.
use Prim.Native.String
use case_automation_mcp.Common.{
  String, true, false, ◌≡◌, ◌≢◌, ◌⊎◌, ◌↔◌, refl, inl, none, some, List, [], ◌∷◌, lookup, insert,
  arith, In,
}
use case_automation_mcp.Routing.Types.{
  Document, Matter, RoutingDecision, rule, moved, blocked, duplicate, dry_run_only, RouteOutcome,
}
use case_automation_mcp.Routing.Config.{
  RoutingConfig, make_config, validate_totality, allowed_principals_for, is_document_class,
  folder_for,
}
use case_automation_mcp.Routing.Classifier.{Classification, classify}
use case_automation_mcp.Routing.Resolver.{resolve}
use case_automation_mcp.Routing.PrivilegeGate.{check}
use case_automation_mcp.Routing.Acl.{build}
use case_automation_mcp.Routing.Acl.Laws.{build_iff, Allowed}
use case_automation_mcp.Routing.Service.{
  World, Service, Request, route, answer, dispatch, destination_of, verdict_of, file_document, move,
  decide, settle, derive_idem_key, decision_to_result, low_confidence, acl_of, text,
}
use case_automation_mcp.Routing.Service.Once.{start, route_once}
use case_automation_mcp.Routing.Service.Sealed.{route-privileged}
use case_automation_mcp.Routing.Service.Filing.{route-files}

abbrev a_world : World
a_world = record {
  lower = λ s. s;
  format = λ p m c d v. String.◌++◌ m c;
  sanitise = λ s. s;
  today = "20260101";
  texts = record { loads = λ s. some ("ann" ∷ []); split_commas = λ s. s ∷ []; strip = λ s. s };
  sha256 = λ s n. s;
  repr = λ l. "";
  accepts = λ n. true;
}

abbrev a_config : RoutingConfig
a_config = record {
  classes = "court_filing" ∷ "unknown" ∷ [];
  classification_rules = record { class_name = "court_filing"; keyword_hints = "motion" ∷ [] } ∷ [];
  folder_map = ("court_filing", "docs/court") ∷ ("unknown", "docs/unknown") ∷ [];
  naming_pattern = "";
  class_policies = ("court_filing", "ann" ∷ "bob" ∷ []) ∷ [];
  classification_threshold = 80;
  routing_intent_version = "v1";
}

abbrev a_document : Document
a_document = record {
  id = "d1";
  name = "the motion";
  classification = none;
  version = 1;
  privileged = true;
  checksum = "c";
}

abbrev a_matter : Matter
a_matter = record {
  id = "m1";
  reference = "M-1";
  responsible = some "cyd";
  external_ids = ("allowed_principals_json", "[]") ∷ [];
}

abbrev inside : Request
inside = record {
  document = a_document;
  matter = a_matter;
  options = record { force_review = false; dry_run = false };
  extraction_fields = [];
  recipient_id = none;
}

abbrev outside : Request
outside = record inside { recipient_id = some "eve" }

abbrev idle : Service
idle = record { decisions = []; moves = []; audits = some [] }

outcomes_of : List Request → Service → List RouteOutcome
outcomes_of [] s = []
outcomes_of (q ∷ qs) s =
    (route a_world a_config q s).0.outcome ∷ outcomes_of qs (route a_world a_config q s).1

-- a rehearsal uses up the key of the document
rehearsed_first :
    outcomes_of
      (record inside { options = record { force_review = false; dry_run = true } }
        ∷ inside
        ∷ outside
        ∷ [])
      idle
    ≡ dry_run_only ∷ duplicate ∷ blocked ∷ []
unfolding outcomes_of route answer dispatch destination_of verdict_of file_document move decide
    settle derive_idem_key decision_to_result low_confidence lookup insert classify resolve check
    is_document_class folder_for
rehearsed_first = refl

route_once_example :
    ((route a_world a_config inside (route a_world a_config inside idle).1).0
      ≡ record (route a_world a_config inside idle).0 { outcome = duplicate })
    × ((route a_world a_config inside (route a_world a_config inside idle).1).1.moves
        ≡ (route a_world a_config inside idle).1.moves)
    × ((route a_world a_config inside (route a_world a_config inside idle).1).1.decisions
        ≡ (route a_world a_config inside idle).1.decisions)
route_once_example =
    route_once a_world a_world a_config a_config inside inside idle
      (route a_world a_config inside idle).1 refl start

route-privileged_example :
    ((route a_world a_config outside idle).1.moves ≡ [])
    × (((lookup (derive_idem_key a_world a_config outside) idle.decisions ≡ none)
          × ((route a_world a_config outside idle).0.outcome ≡ blocked))
        ⊎ ((d : RoutingDecision) × (lookup (derive_idem_key a_world a_config outside) idle.decisions
              ≡ some d)
            × ((route a_world a_config outside idle).0.outcome ≡ duplicate)))
route-privileged_example = route-privileged a_world a_config outside "eve" idle refl refl

abbrev a_class : Classification
a_class = record { class_name = "court_filing"; confidence = 90; source = rule }

not_unknown : a_class.class_name ≢ "unknown"
not_unknown e = cc

route-files_example :
    (f : String) × (lookup "court_filing" a_config.folder_map ≡ some f)
    × ((route a_world a_config inside idle).1.moves
        ≡ record {
          document_id = "d1";
          target = text "M-1" (text "/" f);
          acl = acl_of a_world a_config inside a_class;
        }
          ∷ [])
    × ((route a_world a_config inside idle).0.outcome ≡ moved)
unfolding classify make_config validate_totality lookup is_document_class
route-files_example =
    route-files a_world a_config inside idle a_class refl refl refl (inl refl) not_unknown
      (omega arith) refl refl (inl refl)

build_iff_example :
    (In "cyd" (build a_world.texts a_matter "court_filing" a_config).principals ↔ (
      Allowed a_world.texts a_matter "cyd"
      × ((allowed_principals_for "court_filing" a_config.class_policies ≡ [])
          ⊎ In "cyd" (allowed_principals_for "court_filing" a_config.class_policies))))
    × ((build a_world.texts a_matter "court_filing" a_config).permission ≡ "read")
    × ((build a_world.texts a_matter "court_filing" a_config).external ≡ false)
build_iff_example = build_iff a_world.texts a_matter "court_filing" a_config "cyd"

-- the attorney is dropped, since the class does not list them
granted_here : (build a_world.texts a_matter "court_filing" a_config).principals ≡ "ann" ∷ []
unfolding build lookup allowed_principals_for
granted_here = refl
