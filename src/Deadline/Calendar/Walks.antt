-- ===== src/Deadline/Calendar/Walks.antt =====
-- The walks from one business day to the next, whatever the holidays are.
use case_automation_mcp.Common.{
  ℕ, zero, suc, ◌+◌, Bool, true, false, ◌≡◌, refl, ◌∙◌, ap, ◌⊎◌, inl, inr, subst, Outcome, ok, err,
  arith, if◌then◌else◌,
}
use case_automation_mcp.Deadline.Calendar.{DateError, is_business_day, next_from, forward}

pub Outcome-cases {ℓ} :
    {E A : Type ℓ} (o : Outcome E A) → ((a : A) × (o ≡ ok a)) ⊎ ((e : E) × (o ≡ err e))
Outcome-cases (ok a) = inl (a, refl)
Outcome-cases (err e) = inr (e, refl)

-- whether a date is a business day of a year that the calendar covers
abbrev pub is_ok_true : Outcome DateError Bool → Bool
is_ok_true (ok b) = b
is_ok_true (err e) = false

-- the business days among the `k` dates after `d`
unfoldable pub counted : ℕ → ℕ → ℕ
counted zero d = 0
counted (suc k) d =
    let rest = counted k (suc d) in if is_ok_true (is_business_day (suc d)) then suc rest else rest

module _ (left d : ℕ) where
  pub next_from-found : is_business_day (suc d) ≡ ok true → next_from (suc left) d ≡ ok (suc d)
  unfolding next_from
  next_from-found h = rw (h, next_from) refl

  pub next_from-passed :
      is_business_day (suc d) ≡ ok false → next_from (suc left) d ≡ next_from left (suc d)
  unfolding next_from
  next_from-passed h = rw (h, next_from) refl

  pub next_from-raised :
      (e : DateError) → is_business_day (suc d) ≡ err e → next_from (suc left) d ≡ err e
  unfolding next_from
  next_from-raised e h = rw (h, next_from) refl

  pub forward-found :
      (n : ℕ)
      → is_business_day (suc d) ≡ ok true
      → forward (suc left) (suc n) d ≡ forward left n (suc d)
  unfolding forward
  forward-found n h = rw (h, forward) refl

  pub forward-passed :
      (n : ℕ)
      → is_business_day (suc d) ≡ ok false
      → forward (suc left) (suc n) d ≡ forward left (suc n) (suc d)
  unfolding forward
  forward-passed n h = rw (h, forward) refl

-- `e` is the first business day after `d`
abbrev pub IsNext : ℕ → ℕ → Type 0
IsNext d e = (k : ℕ) × (e ≡ suc (d + k)) × (is_business_day e ≡ ok true) × (counted k d ≡ 0)

counted-passed :
    (k d : ℕ) → is_business_day (suc d) ≡ ok false → counted (suc k) d ≡ counted k (suc d)
unfolding counted
counted-passed k d h = rw h refl

none_yet : (d : ℕ) → counted 0 d ≡ 0
unfolding counted
none_yet d = refl

next_from_end : (d e : ℕ) → ¬ (next_from 0 d ≡ ok e)
unfolding next_from
next_from_end d e h = cc

found_here :
    (left d e : ℕ) → is_business_day (suc d) ≡ ok true → next_from (suc left) d ≡ ok e → suc d ≡ e
found_here left d e found h = let at_once = next_from-found left d found in cc

pub next_from-IsNext : (left d e : ℕ) → next_from left d ≡ ok e → IsNext d e
next_from-IsNext zero d e h = absurd (next_from_end d e h)
next_from-IsNext (suc left) d e h = elim (Outcome-cases (is_business_day (suc d))) [
  | inr (x, raised) ↦ cc (rw (next_from-raised left d x raised) at h)
  | inl (true, found) ↦
      let here = found_here left d e found h in
      (0, omega (arith, here), subst (λ x. is_business_day x ≡ ok true) here found, none_yet d)
  | inl (false, passed) ↦
      let (k, e_is, works, none_there) =
        next_from-IsNext left (suc d) e (rw (next_from-passed left d passed) at h) in
      (suc k, omega (arith, e_is), works, counted-passed k d passed ∙ none_there)
]

-- a walk by one more business day goes to the next one first
pub forward-next :
    (left d e n : ℕ)
    → next_from left d ≡ ok e
    → (rest : ℕ) × (left + d ≡ rest + e) × (forward left (suc n) d ≡ forward rest n e)
forward-next zero d e n h = absurd (next_from_end d e h)
forward-next (suc left) d e n h = elim (Outcome-cases (is_business_day (suc d))) [
  | inr (x, raised) ↦ cc (rw (next_from-raised left d x raised) at h)
  | inl (true, found) ↦
      let here = found_here left d e found h in
      (left, omega (arith, here), forward-found left d n found ∙ ap (forward left n) here)
  | inl (false, passed) ↦
      let (rest, total, same) =
        forward-next left (suc d) e n (rw (next_from-passed left d passed) at h) in
      (rest, omega (arith, total), forward-passed left d n passed ∙ same)
]

counted-found :
    (k d : ℕ) → is_business_day (suc d) ≡ ok true → counted (suc k) d ≡ suc (counted k (suc d))
unfolding counted
counted-found k d h = rw h refl

-- `e` is `k` dates after `d`, with `n` business days among them, the last of which is `e`
abbrev pub IsNth : ℕ → ℕ → ℕ → Type 0
IsNth n d e =
    (k : ℕ) × (e ≡ d + k)
    × (counted k d ≡ n)
    × (((n ≡ 0) × (e ≡ d)) ⊎ (is_business_day e ≡ ok true))

stays : (left d e : ℕ) → forward left 0 d ≡ ok e → e ≡ d
unfolding forward
stays zero d e h = cc
stays (suc left) d e h = cc

runs_out : (n d e : ℕ) → ¬ (forward 0 (suc n) d ≡ ok e)
unfolding forward
runs_out n d e h = ground arith

forward-raised :
    (left n d : ℕ) (x : DateError)
    → is_business_day (suc d) ≡ err x
    → forward (suc left) (suc n) d ≡ err x
unfolding forward
forward-raised left n d x h = rw (h, forward) refl

pub forward-IsNth : (left n d e : ℕ) → forward left n d ≡ ok e → IsNth n d e
forward-IsNth left zero d e h =
    (0, omega (arith, stays left d e h), none_yet d, inl (refl, stays left d e h))
forward-IsNth zero (suc n) d e h = absurd (runs_out n d e h)
forward-IsNth (suc left) (suc n) d e h = elim (Outcome-cases (is_business_day (suc d))) [
  | inr (x, raised) ↦ cc (rw (forward-raised left n d x raised) at h)
  | inl (true, found) ↦
      let (k, e_is, count, ends) =
        forward-IsNth left n (suc d) e (rw (forward-found left d n found) at h) in
      (
        suc k,
        omega (arith, e_is),
        counted-found k d found ∙ ap suc count,
        inr (last_one found ends),
      )
  | inl (false, passed) ↦
      let (k, e_is, count, ends) =
        forward-IsNth left (suc n) (suc d) e (rw (forward-passed left d n passed) at h) in
      (suc k, omega (arith, e_is), counted-passed k d passed ∙ count, inr (no_zero ends))
]
  where
    last_one :
        is_business_day (suc d) ≡ ok true
        → ((n ≡ 0) × (e ≡ suc d)) ⊎ (is_business_day e ≡ ok true)
        → is_business_day e ≡ ok true
    last_one found (inl (z, there)) = rw there found
    last_one found (inr works) = works

    no_zero :
        ((suc n ≡ 0) × (e ≡ suc d)) ⊎ (is_business_day e ≡ ok true) → is_business_day e ≡ ok true
    no_zero (inl (z, there)) = absurd (omega (arith, z))
    no_zero (inr works) = works
