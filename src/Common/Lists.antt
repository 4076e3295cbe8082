-- ===== src/Common/Lists.antt =====
-- Lists over the native numbers, and predicates on lists by recursion.
use Prim.Native.Nat.{ℕ, suc, ◌+◌}
use mathlib.Core.Path.{◌≡◌, refl, sym}
use mathlib.Core.Logic.{◌⊎◌, ◌↔◌, inl, inr}
use mathlib.Core.Bool.{Bool, true, false}
use mathlib.Core.List.{List, [], ◌∷◌, ◌++◌}
use native.Mathlib.Omega.{arith}
use case_automation_mcp.Common.Tests.{is_yes, if◌then◌else◌}

module _ {ℓ} {A : Type ℓ} where
  abbrev pub length : List A → ℕ
  length [] = 0
  length (x ∷ xs) = suc (length xs)

  -- `[x for x in xs if p x]`
  abbrev pub keep : (A → Bool) → List A → List A
  keep p [] = []
  keep p (x ∷ xs) = let rest = keep p xs in if p x then x ∷ rest else rest

  -- `x in xs`
  abbrev pub elem : Discrete A → A → List A → Bool
  elem d x [] = false
  elem d x (y ∷ ys) = if is_yes (d x y) then true else elem d x ys

  pub length-append : (xs ys : List A) → length (xs ++ ys) ≡ length xs + length ys
  length-append [] ys = omega arith
  length-append (x ∷ xs) ys = omega (arith, length-append xs ys)

module _ {ℓ κ} {A : Type ℓ} where
  abbrev pub All : (A → Type κ) → List A → Type κ
  All P [] = Unit
  All P (x ∷ xs) = P x × All P xs

  pub All-append : (P : A → Type κ) (xs ys : List A) → All P xs → All P ys → All P (xs ++ ys)
  All-append P [] ys hx hy = hy
  All-append P (x ∷ xs) ys hx hy = (hx.0, All-append P xs ys hx.1 hy)

abbrev pub Any {ℓ} : {A : Type ℓ} → (A → Type 0) → List A → Type 0
Any P [] = ⊥
Any P (x ∷ xs) = P x ⊎ Any P xs

abbrev pub In : {A : Type 0} → A → List A → Type 0
In a xs = Any (λ x. x ≡ a) xs

pub elem_iff : {A : Type 0} (d : Discrete A) (a : A) (l : List A) → (elem d a l ≡ true) ↔ In a l
elem_iff d a [] = (λ h. cc, λ h. absurd h)
elem_iff d a (x ∷ l) =
    elim (d a x) as (λ t. ((if is_yes t then true else elem d a l) ≡ true) ↔ ((x ≡ a) ⊎ In a l)) [
      | yes e ↦ (λ h. inl (sym e), λ h. refl)
      | no n ↦ (λ h. inr ((elem_iff d a l).0 h), elem_rest n (elem_iff d a l).1)
    ]
  where
    elem_rest : {B : Type 0} → ¬ (a ≡ x) → (In a l → B) → (x ≡ a) ⊎ In a l → B
    elem_rest n f (inl e) = absurd (n (sym e))
    elem_rest n f (inr m) = f m
