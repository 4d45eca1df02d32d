-- ===== src/Base/Maps.antt =====
-- Total maps from numbers, changed at one place.
use Prim.Native.Nat.{ℕ}
use mathlib.Core.Path.{◌≡◌, subst}
use mathlib.Core.Logic.{◌≢◌, inl, inr}
use native.Mathlib.Omega.{arith}
use libmp.Base.Tests.{◌==◌, if◌then◌else◌, Bool-cases}

module _ {ℓ} {A : Type ℓ} where
  unfoldable pub update : (ℕ → A) → ℕ → A → ℕ → A
  update f i a j = if j == i then a else f j

  pub update_self : (f : ℕ → A) (i : ℕ) (a : A) → update f i a i ≡ a
  unfolding update
  update_self f i a = ground arith

  pub update_ne : (f : ℕ → A) (i j : ℕ) (a : A) → j ≢ i → update f i a j ≡ f j
  unfolding update
  update_ne f i j a h = ground arith

  -- A reflexive relation that holds of the old and the new value at the place changed holds
  -- everywhere.
  pub update-related {κ} :
      (R : A → A → Type κ)
      → ((x : A) → R x x)
      → (f : ℕ → A) (i : ℕ) (a : A) → R (f i) a
      → (j : ℕ) → R (f j) (update f i a j)
  unfolding update
  update-related R same f i a r j = elim (Bool-cases (j == i)) [
    | inl e ↦ let p : i ≡ j = ground arith in rw e (subst (λ k. R (f k) a) p r)
    | inr e ↦ rw e (same (f j))
  ]
