-- ===== src/Routing/Acl.antt =====
-- src/cam/core/workflows/document_routing/acl_builder.py. A set is a list whose order and repetitions
-- do not count. `json.loads` and the split at commas are parameters.
use Prim.Native.Nat.{Ordering}
use Prim.Native.String.{compare}
use case_automation_mcp.Common.{
  String, Bool, true, false, Option, none, some, List, [], ◌∷◌, Dict, lookup, keep, any, ◌==◌, map,
  truthy, if◌then◌else◌,
}
use case_automation_mcp.Routing.Types.{Matter, Acl}
use case_automation_mcp.Routing.Config.{RoutingConfig, allowed_principals_for}
pub mod Laws

-- What the texts come to. `loads` is `none` where it raises or the document is no list, and gives the
-- texts of its items.
pub record Texts : Type 0 where
  pub loads : String → Option (List String)
  pub split_commas : String → List String
  pub strip : String → String

-- `{p.strip() for p in l if p.strip()}`
stripped : Texts → List String → List String
stripped t l = keep truthy (map t.strip l)

legacy : Texts → Option String → List String
unfolding stripped
legacy t none = stripped t (t.split_commas "")
legacy t (some csv) = stripped t (t.split_commas csv)

decoded : Texts → Option String → Option (List String)
decoded t none = none
decoded t (some raw) = t.loads raw

-- `_parse_principals`
pub parse_principals : Texts → Dict String → List String
unfolding decoded stripped legacy
parse_principals t external_ids = elim (decoded t (lookup "allowed_principals_json" external_ids)) [
  | some l ↦ stripped t l
  | none ↦ legacy t (lookup "allowed_principals" external_ids)
]

-- with the responsible attorney
pub matter_allowed : Texts → Matter → List String
unfolding parse_principals
matter_allowed t m = elim m.responsible [
  | none ↦ parse_principals t m.external_ids
  | some r ↦ let l = parse_principals t m.external_ids in if truthy r then r ∷ l else l
]

abbrev pub has : List String → String → Bool
has l p = any (λ q. q == p) l

-- the intersection, unless the policy is empty
pub granted : List String → List String → List String
granted allowed [] = allowed
granted allowed (q ∷ policy) = keep (has (q ∷ policy)) allowed

-- one place for each principal, in order
pub insert_sorted : String → List String → List String
insert_sorted p [] = p ∷ []
insert_sorted p (q ∷ l) =
    let rest = insert_sorted p l in
    elim (compare p q) [ Ordering.lt ↦ p ∷ q ∷ l | Ordering.eq ↦ q ∷ l | Ordering.gt ↦ q ∷ rest ]

-- `sorted` of a set
pub sorted : List String → List String
unfolding insert_sorted
sorted [] = []
sorted (p ∷ l) = insert_sorted p (sorted l)

-- nobody where nobody is allowed
principals_of : List String → List String → List String
unfolding sorted granted
principals_of [] policy = []
principals_of (p ∷ allowed) policy = sorted (granted (p ∷ allowed) policy)

unfoldable pub build : Texts → Matter → String → RoutingConfig → Acl
unfolding matter_allowed principals_of
build t matter class_name cfg = record {
  principals =
      principals_of (matter_allowed t matter)
        (allowed_principals_for class_name cfg.class_policies);
  permission = "read";
  external = false;
}
