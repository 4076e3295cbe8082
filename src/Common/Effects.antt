-- ===== src/Common/Effects.antt =====
-- Methods that change an object and may raise. What was written before a raise stays written, so
-- the state comes back beside the error too.
use mathlib.Core.Path.{◌≡◌, refl}
use mathlib.Core.Logic.{◌⊎◌, inl, inr}

pub data Outcome {ℓ} (E A : Type ℓ) : Type ℓ where
  ok : A → Outcome E A
  err : E → Outcome E A

abbrev pub Exec {ℓ} : Type ℓ → Type ℓ → Type ℓ → Type ℓ
Exec E S A = S → Outcome E A × S

module _ {ℓ} {E S A : Type ℓ} where
  abbrev pub pure : A → Exec E S A
  pure a s = (ok a, s)

  abbrev pub raise : E → Exec E S A
  raise e s = (err e, s)

module _ {ℓ} {E S A B : Type ℓ} where
  abbrev pub continue : Outcome E A → (A → Exec E S B) → Exec E S B
  continue (ok a) f s = f a s
  continue (err e) f s = (err e, s)

  infixl 5 ◌>>=◌
  abbrev pub ◌>>=◌ : Exec E S A → (A → Exec E S B) → Exec E S B
  ◌>>=◌ m f s = continue (m s).0 f (m s).1

  infixl 5 ◌>>◌
  abbrev pub ◌>>◌ : Exec E S A → Exec E S B → Exec E S B
  ◌>>◌ m n s = continue (m s).0 (λ _. n) (m s).1

abbrev pub reads {ℓ} : {E S A : Type ℓ} → (S → A) → Exec E S A
reads f s = (ok (f s), s)

abbrev pub writes {ℓ} : {E S : Type ℓ} → (S → S) → Exec E S Unit
writes f s = (ok tt, f s)

module _ {ℓ} {E S A B : Type ℓ} where
  -- a block that succeeds did so in its first part, and then in the rest
  pub >>=-eq-ok :
      (m : Exec E S A) (f : A → Exec E S B) (s : S) {b : B} {s' : S}
      → (m >>= f) s ≡ (ok b, s')
      → (a : A) × (t : S) × (m s ≡ (ok a, t)) × (f a t ≡ (ok b, s'))
  >>=-eq-ok m f s {b} {s'} h = go (m s) refl h
    where
      go :
          (p : Outcome E A × S)
          → m s ≡ p
          → continue p.0 f p.1 ≡ (ok b, s')
          → (a : A) × (t : S) × (m s ≡ (ok a, t)) × (f a t ≡ (ok b, s'))
      go (ok a, t) e h = (a, t, e, h)
      go (err x, t) e h = cc

  -- a block that raises did so in its first part, or in the rest
  pub >>=-eq-err :
      (m : Exec E S A) (f : A → Exec E S B) (s : S) {x : E} {s' : S}
      → (m >>= f) s ≡ (err x, s')
      → (m s ≡ (err x, s')) ⊎ ((a : A) × (t : S) × (m s ≡ (ok a, t)) × (f a t ≡ (err x, s')))
  >>=-eq-err m f s {x} {s'} h = go (m s) refl h
    where
      go :
          (p : Outcome E A × S)
          → m s ≡ p
          → continue p.0 f p.1 ≡ (err x, s')
          → (m s ≡ (err x, s')) ⊎ ((a : A) × (t : S) × (m s ≡ (ok a, t)) × (f a t ≡ (err x, s')))
      go (ok a, t) e h = inr (a, t, e, h)
      go (err y, t) e h = inl (cc)

-- a run whose outcome is known, with the state that it leaves
pub ends_in {ℓ} : {A B : Type ℓ} (p : A × B) {a : A} → p.0 ≡ a → p ≡ (a, p.1)
ends_in p e i = (e i, p.1)
