-- ===== src/Routing/Acl/Laws.antt =====
-- Who is in the access list of a filed document.
use text.Mathlib.TextEquality.{path_by_compare}
use mathlib.Core.Option.{some_inj}
use case_automation_mcp.Common.{
  not_empty, String, Bool, true, false, ◌≡◌, ◌≢◌, Option, none, some, Dict, lookup, Any, truthy,
  Bool-cases, ◌==◌, Option-cases, subst, sym, ◌∙◌, ap, refl, ◌↔◌, ◌⊎◌, inl, inr, List, [], ◌∷◌,
  keep, In, eq_iff, arith,
}
use case_automation_mcp.Routing.Types.{Matter}
use case_automation_mcp.Routing.Config.{RoutingConfig, allowed_principals_for}
use case_automation_mcp.Routing.Acl.{
  Texts, has, granted, insert_sorted, sorted, principals_of, stripped, decoded, legacy,
  parse_principals, matter_allowed, build,
}

has_iff : (l : List String) (p : String) → (has l p ≡ true) ↔ In p l
has_iff [] p = (λ h. cc, λ h. absurd h)
has_iff (q ∷ l) p = ground (arith, has_iff l p, eq_iff q p)

In-keep :
    (f : String → Bool) (l : List String) (p : String) → In p (keep f l) ↔ (In p l × (f p ≡ true))
In-keep f [] p = (λ h. absurd h, λ h. absurd h.0)
In-keep f (q ∷ l) p = ground (arith, In-keep f l p)

In-insert_sorted :
    (q : String) (l : List String) (p : String) → In p (insert_sorted q l) ↔ ((q ≡ p) ⊎ In p l)
unfolding insert_sorted
In-insert_sorted q [] p = (λ h. h, λ h. h)
In-insert_sorted q (r ∷ l) p = ground (arith, In-insert_sorted q l p, path_by_compare q r)

In-sorted : (l : List String) (p : String) → In p (sorted l) ↔ In p l
unfolding sorted
In-sorted [] p = (λ h. h, λ h. h)
In-sorted (q ∷ l) p = ground (arith, In-sorted l p, In-insert_sorted q (sorted l) p)

In-granted :
    (allowed policy : List String) (p : String)
    → In p (granted allowed policy) ↔ (In p allowed × ((policy ≡ []) ⊎ In p policy))
unfolding granted
In-granted allowed [] p = (λ h. (h, inl refl), λ h. h.0)
In-granted allowed (q ∷ policy) p = (
  λ h.
      let (m, t) = (In-keep (has (q ∷ policy)) allowed p).0 h in
      (m, inr ((has_iff (q ∷ policy) p).0 t)),
  λ h. (In-keep (has (q ∷ policy)) allowed p).1 (h.0, listed h.1),
)
  where
    listed : (q ∷ policy ≡ []) ⊎ In p (q ∷ policy) → has (q ∷ policy) p ≡ true
    listed (inl e) = cc
    listed (inr m) = (has_iff (q ∷ policy) p).1 m

In-principals_of :
    (allowed policy : List String) (p : String)
    → In p (principals_of allowed policy) ↔ (In p allowed × ((policy ≡ []) ⊎ In p policy))
unfolding principals_of
In-principals_of [] policy p = (λ h. absurd h, λ h. absurd h.0)
In-principals_of (q ∷ allowed) policy p =
    ground (arith, In-granted (q ∷ allowed) policy p, In-sorted (granted (q ∷ allowed) policy) p)

-- the names in the external ids: the items of a readable list, or the parts of the older text
unfoldable pub NamesOf : Texts → Dict String → List String → Type 0
NamesOf t ids l =
    ((raw : String) × (lookup "allowed_principals_json" ids ≡ some raw) × (t.loads raw ≡ some l))
    ⊎ (((raw : String) → lookup "allowed_principals_json" ids ≡ some raw → t.loads raw ≡ none)
        × (((csv : String) × (lookup "allowed_principals" ids ≡ some csv)
              × (l ≡ t.split_commas csv))
            ⊎ ((lookup "allowed_principals" ids ≡ none) × (l ≡ t.split_commas ""))))

-- a name that is not empty, and is one of those when it is stripped, or the responsible attorney
unfoldable pub Allowed : Texts → Matter → String → Type 0
Allowed t m p =
    (p ≢ "")
    × (((l : List String) × NamesOf t m.external_ids l × Any (λ q. t.strip q ≡ p) l)
        ⊎ (m.responsible ≡ some p))

empty_text : (s : String) → truthy s ≡ false → s ≡ ""
empty_text s blank = elim (Bool-cases (s == "")) [
  | inl same ↦ (eq_iff s "").0 same
  | inr other ↦ cc (rw other at blank)
]

stripped_iff :
    (t : Texts) (l : List String) (p : String)
    → In p (stripped t l) ↔ ((p ≢ "") × Any (λ q. t.strip q ≡ p) l)
unfolding stripped
stripped_iff t [] p = (λ h. absurd h, λ h. absurd h.1)
stripped_iff t (q ∷ l) p = elim (Bool-cases (truthy (t.strip q))) [
  | inl full ↦ rw full (
    λ h. elim h [
      | inl e ↦ (subst (λ x. x ≢ "") e (not_empty (t.strip q) full), inl e)
      | inr m ↦ let (filled, a) = (stripped_iff t l p).0 m in (filled, inr a)
    ],
    λ h. elim h.1 [ inl e ↦ inl e | inr a ↦ inr ((stripped_iff t l p).1 (h.0, a)) ],
  )
  | inr blank ↦ rw blank (
    λ h. let (filled, a) = (stripped_iff t l p).0 h in (filled, inr a),
    λ h. elim h.1 [
      | inl e ↦ absurd (h.0 (sym e ∙ empty_text (t.strip q) blank))
      | inr a ↦ (stripped_iff t l p).1 (h.0, a)
    ],
  )
]

abbrev or_older : Texts → Option String → Option (List String) → List String
or_older t older o = elim o [ some l ↦ stripped t l | none ↦ legacy t older ]

parse_principals-NamesOf :
    (t : Texts) (ids : Dict String) (l : List String)
    → NamesOf t ids l
    → parse_principals t ids ≡ stripped t l
unfolding parse_principals decoded NamesOf legacy
parse_principals-NamesOf t ids l (inl (raw, there, read)) =
    ap (or_older t (lookup "allowed_principals" ids)) (ap (decoded t) there ∙ read)
parse_principals-NamesOf t ids l (inr (unread, older)) =
    ap (or_older t (lookup "allowed_principals" ids))
      (not_read (lookup "allowed_principals_json" ids) unread)
    ∙ from_text (lookup "allowed_principals" ids) older
  where
    not_read :
        (o : Option String)
        → ((raw : String) → o ≡ some raw → t.loads raw ≡ none)
        → decoded t o ≡ none
    not_read none h = refl
    not_read (some raw) h = h raw refl

    from_text :
        (o : Option String)
        → ((csv : String) × (o ≡ some csv) × (l ≡ t.split_commas csv))
          ⊎ ((o ≡ none) × (l ≡ t.split_commas ""))
        → legacy t o ≡ stripped t l
    from_text o (inl (csv, there, same)) = ap (legacy t) there ∙ ap (stripped t) (sym same)
    from_text o (inr (absent, same)) = ap (legacy t) absent ∙ ap (stripped t) (sym same)

NamesOf-total : (t : Texts) (ids : Dict String) → (l : List String) × NamesOf t ids l
unfolding NamesOf
NamesOf-total t ids = elim (Option-cases (lookup "allowed_principals_json" ids)) [
  | inl absent ↦
      let (l, text) = older (lookup "allowed_principals" ids) in (l, inr (λ raw there. cc, text))
  | inr (raw, there) ↦ elim (Option-cases (t.loads raw)) [
    | inr (l, read) ↦ (l, inl (raw, there, read))
    | inl unread ↦
        let (l, text) = older (lookup "allowed_principals" ids) in
        (
          l,
          inr (
            λ raw' there'. subst (λ x. t.loads x ≡ none) (some_inj.0 (sym there ∙ there')) unread,
            text,
          ),
        )
  ]
]
  where
    older :
        (o : Option String)
        → (l : List String) × (((csv : String) × (o ≡ some csv) × (l ≡ t.split_commas csv))
            ⊎ ((o ≡ none) × (l ≡ t.split_commas "")))
    older none = (t.split_commas "", inr (refl, refl))
    older (some csv) = (t.split_commas csv, inl (csv, refl, refl))

parse_principals_iff :
    (t : Texts) (ids : Dict String) (p : String)
    → In p (parse_principals t ids)
      ↔ ((p ≢ "") × ((l : List String) × NamesOf t ids l × Any (λ q. t.strip q ≡ p) l))
parse_principals_iff t ids p = (
  λ h.
      let (l, names) = NamesOf-total t ids in
      let (filled, a) =
        (stripped_iff t l p).0 (subst (λ x. In p x) (parse_principals-NamesOf t ids l names) h) in
      (filled, (l, names, a)),
  λ h.
      let (filled, (l, names, a)) = h in
      subst (λ x. In p x) (sym (parse_principals-NamesOf t ids l names))
        ((stripped_iff t l p).1 (filled, a)),
)

matter_allowed_iff :
    (t : Texts) (m : Matter) (p : String) → In p (matter_allowed t m) ↔ Allowed t m p
unfolding Allowed matter_allowed
matter_allowed_iff t m p = elim (Option-cases m.responsible) [
  | inl nobody ↦ rw nobody (
    λ h. let (filled, a) = (parse_principals_iff t m.external_ids p).0 h in (filled, inl a),
    λ h. elim h.1 [ inl a ↦ (parse_principals_iff t m.external_ids p).1 (h.0, a) | inr r ↦ cc ],
  )
  | inr (r, there) ↦ elim (Bool-cases (truthy r)) [
    | inl full ↦
        rw (there, full)
          (
            λ h. elim h [
              | inl e ↦ (subst (λ x. x ≢ "") e (not_empty r full), inr (ap some e))
              | inr i ↦
                  let (filled, a) = (parse_principals_iff t m.external_ids p).0 i in (filled, inl a)
            ],
            λ h. elim h.1 [
              | inl a ↦ inr ((parse_principals_iff t m.external_ids p).1 (h.0, a))
              | inr e ↦ inl (some_inj.0 e)
            ],
          )
    | inr blank ↦
        rw (there, blank)
          (
            λ h. let (filled, a) = (parse_principals_iff t m.external_ids p).0 h in (filled, inl a),
            λ h. elim h.1 [
              | inl a ↦ (parse_principals_iff t m.external_ids p).1 (h.0, a)
              | inr e ↦ absurd (h.0 (sym (some_inj.0 e) ∙ empty_text r blank))
            ],
          )
  ]
]

-- A principal is in the access list of a document just when its name is not empty, it is one of the
-- stripped names in the external ids of the matter, as a readable list of JSON or else between commas,
-- or the responsible attorney, and the policy of the class lists it or is empty. The list grants
-- reading, and nothing to the outside.
pub build_iff :
    (t : Texts) (m : Matter) (class_name : String) (cfg : RoutingConfig) (p : String)
    → (In p (build t m class_name cfg).principals ↔ (
        Allowed t m p
        × ((allowed_principals_for class_name cfg.class_policies ≡ [])
            ⊎ In p (allowed_principals_for class_name cfg.class_policies))))
      × ((build t m class_name cfg).permission ≡ "read")
      × ((build t m class_name cfg).external ≡ false)
unfolding build
build_iff t m class_name cfg p =
    let (to, from) =
      In-principals_of (matter_allowed t m) (allowed_principals_for class_name cfg.class_policies)
        p in
    let (allowed, back) = matter_allowed_iff t m p in
    ((λ h. (allowed (to h).0, (to h).1), λ h. from (back h.0, h.1)), refl, refl)
