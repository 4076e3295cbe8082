-- ===== src/Routing/Config/Laws.antt =====
-- Validated configurations.
use case_automation_mcp.Common.{
  String, Bool, true, ◌≡◌, inl, inr, some, List, [], ◌∷◌, In, lookup, is_some, all, arith, ok,
  Bool-cases, Option-cases,
}
use case_automation_mcp.Routing.Config.{RoutingConfig, make_config, validate_totality, folder_for}

all-In : (f : String → Bool) (l : List String) (c : String) → all f l ≡ true → In c l → f c ≡ true
all-In f [] c h m = absurd m
all-In f (d ∷ l) c h m = ground (arith, all-In f l c)

-- a validated configuration has a folder for each of its classes
pub make_config-folder :
    (cfg : RoutingConfig) (c : String)
    → make_config cfg ≡ ok cfg
    → In c cfg.classes
    → (f : String) × (folder_for c cfg.folder_map ≡ some f)
unfolding folder_for make_config validate_totality
make_config-folder cfg c valid known =
    elim (Bool-cases (all (λ k. is_some (lookup k cfg.folder_map)) cfg.classes)) [
      | inl total ↦
          let there = all-In (λ k. is_some (lookup k cfg.folder_map)) cfg.classes c total known in
          elim (Option-cases (lookup c cfg.folder_map)) [
            | inl none_there ↦ cc (rw none_there at there)
            | inr found ↦ found
          ]
      | inr partial ↦ cc (rw (partial, make_config) at valid)
    ]
