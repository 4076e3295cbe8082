-- ===== src/Intake/Dedupe/Reuse.antt =====
-- When a contact is reused.
use mathlib.Core.Option.{some_inj}
use case_automation_mcp.Common.{
  not_empty, Bool, Bool-cases, true, false, All, ◌↔◌, truthy, eq_iff, ◌==◌, lookup, subst, sym, ap,
  String, ◌≡◌, ◌≢◌, refl, ◌⊎◌, inl, inr, Option, none, some, List, [], ◌∷◌, keep,
}
use case_automation_mcp.Intake.Dedupe.{
  or_empty, Contact, IntakeFields, reuse_contact, Crm, given, candidates, has_email, has_a_number,
  reuse, only, exact, unclear, by_a_number, by_email, dedupe_contact,
}

-- `c` is the only candidate that passes the test for a text that is given
abbrev pub IsOnly : (String → Contact → Bool) → Option String → List Contact → Contact → Type 0
IsOnly p o l c = (s : String) × (given o ≡ some s) × (keep (p s) l ≡ c ∷ [])

only-some : (l : List Contact) (c : Contact) → only l ≡ some c → l ≡ c ∷ []
unfolding only
only-some [] c h = cc
only-some (d ∷ []) c h = cc
only-some (d ∷ e ∷ l) c h = cc

exact-IsOnly :
    (p : String → Contact → Bool) (o : Option String) (l : List Contact) (c : Contact)
    → exact p o l ≡ some c
    → (s : String) × (o ≡ some s) × (keep (p s) l ≡ c ∷ [])
unfolding exact
exact-IsOnly p none l c h = cc
exact-IsOnly p (some s) l c h = (s, refl, only-some (keep (p s) l) c h)

unclear_gap : (l : List Contact) → (unclear l).0.decision ≢ reuse_contact
unfolding unclear
unclear_gap [] h = cc
unclear_gap (c ∷ []) h = cc
unclear_gap (c ∷ d ∷ l) h = cc

by_a_number-reuse :
    (f : IntakeFields) (l : List Contact) (o : Option Contact)
    → exact has_a_number (given f.a_number) l ≡ o
    → (by_a_number f l o).0.decision ≡ reuse_contact
    → (c : Contact) × (by_a_number f l o ≡ reuse c) × IsOnly has_a_number f.a_number l c
unfolding by_a_number
by_a_number-reuse f l (some c) e h = (c, refl, exact-IsOnly has_a_number (given f.a_number) l c e)
by_a_number-reuse f l none e h = absurd (unclear_gap l h)

by_email-reuse :
    (f : IntakeFields) (l : List Contact) (o : Option Contact)
    → exact has_email (given f.email) l ≡ o
    → (by_email f l o).0.decision ≡ reuse_contact
    → (c : Contact) × (by_email f l o ≡ reuse c)
      × (IsOnly has_email f.email l c ⊎ IsOnly has_a_number f.a_number l c)
unfolding by_email
by_email-reuse f l (some c) e h = (c, refl, inl (exact-IsOnly has_email (given f.email) l c e))
by_email-reuse f l none e h =
    let (c, is, how) = by_a_number-reuse f l (exact has_a_number (given f.a_number) l) refl h in
    (c, is, inr how)

-- the list has exactly one contact of that kind, and it is `c`
unfoldable pub OnlyWith : (Contact → Type 0) → List Contact → Contact → Type 0
OnlyWith P [] c = ⊥
OnlyWith P (d ∷ l) c = ((d ≡ c) × P d × All (λ e. ¬ P e) l) ⊎ ((¬ P d) × OnlyWith P l c)

-- the same for the contacts with the text in the field, which is given and not empty
abbrev pub OnlyMatch : (Contact → Option String) → Option String → List Contact → Contact → Type 0
OnlyMatch field o l c =
    (s : String) × (o ≡ some s) × (s ≢ "") × OnlyWith (λ d. field d ≡ some s) l c

module _ (p : Contact → Bool) (P : Contact → Type 0)
    (exactly : (d : Contact) → (p d ≡ true) ↔ P d) where
  none-keep : (l : List Contact) → keep p l ≡ [] → All (λ e. ¬ P e) l
  none-keep [] h = tt
  none-keep (d ∷ l) h = elim (Bool-cases (p d)) [
    | inl yes_ ↦ cc (rw yes_ at h)
    | inr no_ ↦ ((λ q. cc ((exactly d).1 q, no_)), none-keep l (rw no_ at h))
  ]

  OnlyWith-keep : (l : List Contact) (c : Contact) → keep p l ≡ c ∷ [] → OnlyWith P l c
  unfolding OnlyWith
  OnlyWith-keep [] c h = cc
  OnlyWith-keep (d ∷ l) c h = elim (Bool-cases (p d)) [
    | inl yes_ ↦
        let kept : d ∷ keep p l ≡ c ∷ [] = rw yes_ at h in
        let same : d ≡ c = cc in
        let others : keep p l ≡ [] = cc in inl (same, (exactly d).0 yes_, none-keep l others)
    | inr no_ ↦ inr ((λ q. cc ((exactly d).1 q, no_)), OnlyWith-keep l c (rw no_ at h))
  ]

given-some : (o : Option String) (s : String) → given o ≡ some s → (o ≡ some s) × (s ≢ "")
given-some none s h = cc
given-some (some t) s h = elim (Bool-cases (truthy t)) [
  | inl full ↦
      let same : some t ≡ some s = rw full at h in
      (same, subst (λ x. x ≢ "") (some_inj.0 same) (not_empty t full))
  | inr blank ↦ cc (rw blank at h)
]

has_email_iff : (s : String) → s ≢ "" → (d : Contact) → (has_email s d ≡ true) ↔ (d.email ≡ some s)
unfolding has_email
has_email_iff s full d = of_field d.email
  where
    of_field : (o : Option String) → ((or_empty o == s) ≡ true) ↔ (o ≡ some s)
    of_field none = (λ h. absurd (full (sym ((eq_iff "" s).0 h))), λ h. cc)
    of_field (some e) = (λ h. ap some ((eq_iff e s).0 h), λ h. (eq_iff e s).1 (some_inj.0 h))

has_a_number_iff :
    (s : String) (d : Contact)
    → (has_a_number s d ≡ true) ↔ (lookup "a_number" d.external_ids ≡ some s)
unfolding has_a_number
has_a_number_iff s d = of_field (lookup "a_number" d.external_ids)
  where
    of_field :
        (o : Option String) → ((elim o [ some b ↦ b == s | none ↦ false ]) ≡ true) ↔ (o ≡ some s)
    of_field none = (λ h. cc, λ h. cc)
    of_field (some b) = (λ h. ap some ((eq_iff b s).0 h), λ h. (eq_iff b s).1 (some_inj.0 h))

email-IsOnly :
    (o : Option String) (l : List Contact) (c : Contact)
    → IsOnly has_email o l c
    → OnlyMatch (λ d. d.email) o l c
email-IsOnly o l c (s, there, kept) =
    let (same, full) = given-some o s there in
    (
      s,
      same,
      full,
      OnlyWith-keep (has_email s) (λ d. d.email ≡ some s) (has_email_iff s full) l c kept,
    )

a_number-IsOnly :
    (o : Option String) (l : List Contact) (c : Contact)
    → IsOnly has_a_number o l c
    → OnlyMatch (λ d. lookup "a_number" d.external_ids) o l c
a_number-IsOnly o l c (s, there, kept) =
    let (same, full) = given-some o s there in
    (
      s,
      same,
      full,
      OnlyWith-keep (has_a_number s) (λ d. lookup "a_number" d.external_ids ≡ some s)
          (has_a_number_iff s) l c kept,
    )

-- A lead is merged into an existing contact only if that contact is the one candidate with exactly the
-- email of the lead, or the one candidate with exactly its A-number; the text is given and not empty.
-- The result names that contact, and no gap is reported.
pub dedupe_contact-reuse :
    (crm : Crm) (f : IntakeFields)
    → (dedupe_contact crm f).0.decision ≡ reuse_contact
    → (c : Contact) × (dedupe_contact crm f ≡ reuse c)
      × (OnlyMatch (λ d. d.email) f.email (candidates crm f) c
          ⊎ OnlyMatch (λ d. lookup "a_number" d.external_ids) f.a_number (candidates crm f) c)
unfolding dedupe_contact
dedupe_contact-reuse crm f h =
    let (c, is, how) =
      by_email-reuse f (candidates crm f) (exact has_email (given f.email) (candidates crm f)) refl
        h in
    (
      c,
      is,
      elim how [
        | inl e ↦ inl (email-IsOnly f.email (candidates crm f) c e)
        | inr a ↦ inr (a_number-IsOnly f.a_number (candidates crm f) c a)
      ],
    )
