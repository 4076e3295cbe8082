-- ===== src/Routing/Service/Filing.antt =====
-- Documents that are filed.
use Prim.Native.Char.{Char}
use Prim.Native.String.compare
use package.text.Mathlib.TextLemmas.{nil-append, cons-append}
use case_automation_mcp.Common.{
  ◌≤◌, String, false, ◌≡◌, ◌≢◌, refl, ◌⊎◌, inl, inr, none, some, ◌∷◌, In, lookup, length, ltb,
  arith, ne→==-false, if◌then◌else◌, ok, Option-cases,
}
use case_automation_mcp.Routing.Types.{folder, moved, blocked, RoutingDestination}
use case_automation_mcp.Routing.Config.{RoutingConfig, make_config, folder_for}
use case_automation_mcp.Routing.Config.Laws.{make_config-folder}
use case_automation_mcp.Routing.Classifier.{Classification, classify}
use case_automation_mcp.Routing.Resolver.{resolve}
use case_automation_mcp.Routing.PrivilegeGate.{check, is_fail}
use case_automation_mcp.Routing.Service.{
  World, Service, Request, route, dispatch, derive_idem_key, verdict_of, settle, decide, the_move,
  destination_of, is_review, low_confidence, file_document, move, acl_of, or_review_queue, text,
  decision_to_result,
}
use case_automation_mcp.Routing.Service.Laws.{route-new, settle_state}

full : (c : Char) (s : String) → or_review_queue (some (String.◌∷◌ c s)) ≡ String.◌∷◌ c s
full c s = rw (compare.cons-nil c s) refl

-- a path under the reference of the matter is not empty
path_kept : (r f : String) → or_review_queue (some (text r (text "/" f))) ≡ text r (text "/" f)
path_kept String.[] f = rw (nil-append, cons-append) (full _ _)
path_kept (String.◌∷◌ c r) f = rw cons-append (full _ _)

destination_of-folder :
    (cfg : RoutingConfig) (q : Request) (c : Classification) (f : String)
    → c.class_name ≢ "unknown"
    → cfg.classification_threshold ≤ c.confidence
    → q.options.force_review ≡ false
    → folder_for c.class_name cfg.folder_map ≡ some f
    → destination_of cfg q c ≡ record {
      kind = folder;
      matter_id = some q.matter.id;
      folder_path = some (text q.matter.reference (text "/" f));
    }
unfolding destination_of low_confidence resolve
destination_of-folder cfg q c f known sure free there =
    let sure_enough : ltb c.confidence cfg.classification_threshold ≡ false = ground arith in
    rw (ne→==-false c.class_name "unknown" known, sure_enough, free, there) refl

admitted :
    (q : Request) (d : RoutingDestination)
    → (q.recipient_id ≡ none) ⊎ (q.document.privileged ≡ false)
    → is_fail (verdict_of q d) ≡ false
unfolding verdict_of check
admitted q d (inl nobody) = rw nobody refl
admitted q d (inr free) = elim (Option-cases q.recipient_id) [
  | inl e ↦ rw e refl
  | inr (r, e) ↦ rw (e, free) refl
]

dispatch-file_document :
    (w : World) (cfg : RoutingConfig) (q : Request) (c : Classification) (s : Service)
    → is_fail (verdict_of q (destination_of cfg q c)) ≡ false
    → is_review (destination_of cfg q c).kind ≡ false
    → q.options.dry_run ≡ false
    → dispatch w cfg q c s ≡ file_document w cfg q c s
unfolding dispatch
dispatch-file_document w cfg q c s pass to_folder real = rw (pass, to_folder, real) refl

file_document_lem :
    (w : World) (cfg : RoutingConfig) (q : Request) (c : Classification) (s : Service)
    → ((file_document w cfg q c s).1.moves ≡ the_move w cfg q c ∷ s.moves)
      × ((file_document w cfg q c s).0.outcome
          ≡ (if w.accepts (length s.moves) then moved else blocked))
unfolding file_document move settle decide decision_to_result
file_document_lem w cfg q c s = (
  (settle_state (decide w cfg q c (move w (the_move w cfg q c) s).0)
      (move w (the_move w cfg q c) s).1).1,
  refl,
)

-- Under a validated configuration, a document is filed when its class is one of the configuration
-- and not "unknown", the confidence reaches the threshold, neither a review nor a dry run is asked,
-- there is no recipient or the document is not privileged, and the store has no decision under the
-- key: exactly one move is asked of the docstore, of that document to the folder of its class under
-- the reference of the matter. The outcome is "moved" if the docstore accepts, else "blocked".
pub route-files :
    (w : World) (cfg : RoutingConfig) (q : Request) (s : Service) (c : Classification)
    → make_config cfg ≡ ok cfg
    → lookup (derive_idem_key w cfg q) s.decisions ≡ none
    → classify w.lower q.document q.extraction_fields cfg ≡ c
    → In c.class_name cfg.classes
    → c.class_name ≢ "unknown"
    → cfg.classification_threshold ≤ c.confidence
    → q.options.force_review ≡ false
    → q.options.dry_run ≡ false
    → (q.recipient_id ≡ none) ⊎ (q.document.privileged ≡ false)
    → (f : String) × (lookup c.class_name cfg.folder_map ≡ some f)
      × ((route w cfg q s).1.moves
          ≡ record {
            document_id = q.document.id;
            target = text q.matter.reference (text "/" f);
            acl = acl_of w cfg q c;
          }
            ∷ s.moves)
      × ((route w cfg q s).0.outcome ≡ (if w.accepts (length s.moves) then moved else blocked))
unfolding folder_for the_move
route-files w cfg q s c valid new class known certain sure free real open_to =
    let (f, there) = make_config-folder cfg c.class_name valid known in
    let d = destination_of-folder cfg q c f certain sure free there in
    let pass = admitted q (destination_of cfg q c) open_to in
    let filed = file_document_lem w cfg q c s in
    (
      f,
      there,
      rw
          (
            route-new w cfg q s new,
            class,
            dispatch-file_document w cfg q c s pass (rw d refl) real,
            filed.0,
            d,
            path_kept q.matter.reference f,
          )
          refl,
      rw (route-new w cfg q s new, class, dispatch-file_document w cfg q c s pass (rw d refl) real)
          filed.1,
    )
