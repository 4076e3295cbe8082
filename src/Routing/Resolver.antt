-- ===== src/Routing/Resolver.antt =====
-- src/cam/core/workflows/document_routing/namer.py. `str.format`, `re.sub` and the date are parameters.
use Prim.Native.String
use case_automation_mcp.Common.{ℕ, String, Bool, Option, none, some, ◌==◌, if◌then◌else◌}
use case_automation_mcp.Routing.Types.{Document, Matter, RoutingDestination, folder, review_queue}
use case_automation_mcp.Routing.Config.{RoutingConfig, folder_for}

-- `NamingTemplate.render`
render :
    (String → String → String → String → ℕ → String)
    → (String → String)
    → String
    → String
    → String
    → String
    → ℕ
    → String
render format sanitise pattern matter_reference class_name date version =
    sanitise (format pattern matter_reference class_name date version)

unfoldable pub derive_name :
    (String → String → String → String → ℕ → String)
    → (String → String)
    → String
    → Document
    → String
    → Matter
    → RoutingConfig
    → String
unfolding render
derive_name format sanitise today document class_name matter cfg =
    render format sanitise cfg.naming_pattern matter.reference class_name today document.version

abbrev pub to_review : Option String → RoutingDestination
to_review matter_id = record { kind = review_queue; matter_id = matter_id; folder_path = none }

abbrev id_of : Option Matter → Option String
id_of none = none
id_of (some m) = some m.id

-- the folder of the class, under the reference of the matter
filed : Matter → Option String → RoutingDestination
filed m none = to_review (some m.id)
filed m (some f) = record {
  kind = folder;
  matter_id = some m.id;
  folder_path = some (String.◌++◌ m.reference (String.◌++◌ "/" f));
}

resolve_for : String → Matter → RoutingConfig → RoutingDestination
unfolding filed
resolve_for class_name m cfg =
    if class_name == "unknown"
    then to_review (some m.id)
    else filed m (folder_for class_name cfg.folder_map)

unfoldable pub resolve : String → Option Matter → Bool → RoutingConfig → RoutingDestination
unfolding resolve_for
resolve class_name matter force_review cfg =
    if force_review
    then to_review (id_of matter)
    else elim matter [ none ↦ to_review none | some m ↦ resolve_for class_name m cfg ]
