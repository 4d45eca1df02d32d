-- ===== src/Base/Counting.antt =====
-- Distinct numbers below a bound are at most as many as the bound.
use Prim.Native.Nat.{ℕ, zero, suc, ◌<◌, ◌≤◌}
use mathlib.Core.Path.{◌≡◌, refl}
use mathlib.Core.Logic.{inl, inr}
use mathlib.Core.List.{List, [], ◌∷◌}
use native.Mathlib.Omega.{arith}
use libmp.Base.Tests.{◌==◌, if◌then◌else◌, Bool-cases}
use libmp.Base.Lists.{length, All, has, ◌∈◌, ◌∉◌}

abbrev pub Distinct : List ℕ → Type 0
Distinct [] = Unit
Distinct (x ∷ xs) = (x ∉ xs) × Distinct xs

abbrev pub remove : ℕ → List ℕ → List ℕ
remove a [] = []
remove a (x ∷ xs) = if a == x then xs else x ∷ remove a xs

length-remove : (a : ℕ) (xs : List ℕ) → a ∈ xs → length xs ≡ suc (length (remove a xs))
length-remove a [] i = absurd (ground arith)
length-remove a (x ∷ xs) i = elim (Bool-cases (a == x)) [
  | inl e ↦ rw e refl
  | inr e ↦ rw e (omega (arith, length-remove a xs (ground (arith, e))))
]

remove-out : (a b : ℕ) (xs : List ℕ) → b ∉ xs → b ∉ remove a xs
remove-out a b [] out = out
remove-out a b (x ∷ xs) out = elim (Bool-cases (a == x)) [
  | inl e ↦ rw e (ground arith)
  | inr e ↦ rw e (ground (arith, remove-out a b xs))
]

Distinct-remove : (a : ℕ) (xs : List ℕ) → Distinct xs → Distinct (remove a xs)
Distinct-remove a [] d = tt
Distinct-remove a (x ∷ xs) (out, d) = elim (Bool-cases (a == x)) [
  | inl e ↦ rw e d
  | inr e ↦ rw e (remove-out a x xs out, Distinct-remove a xs d)
]

All-below : (n : ℕ) (xs : List ℕ) → n ∉ xs → All (λ a. a < suc n) xs → All (λ a. a < n) xs
All-below n [] out all = tt
All-below n (x ∷ xs) out (lt, all) = (ground arith, All-below n xs (ground arith) all)

All-remove :
    (n : ℕ) (xs : List ℕ) → Distinct xs → All (λ a. a < suc n) xs → All (λ a. a < n) (remove n xs)
All-remove n [] d all = tt
All-remove n (x ∷ xs) (out, d) (lt, all) = elim (Bool-cases (n == x)) [
  | inl e ↦ rw e (All-below n xs (ground arith) all)
  | inr e ↦ rw e (ground arith, All-remove n xs d all)
]

pub Distinct-length : (n : ℕ) (xs : List ℕ) → Distinct xs → All (λ a. a < n) xs → length xs ≤ n
Distinct-length zero [] d all = omega arith
Distinct-length zero (x ∷ xs) d (lt, all) = absurd (omega arith)
Distinct-length (suc n) xs d all = elim (Bool-cases (has n xs)) [
  | inl i ↦ omega (
    arith,
    length-remove n xs i,
    Distinct-length n (remove n xs) (Distinct-remove n xs d) (All-remove n xs d all),
  )
  | inr out ↦ omega (arith, Distinct-length n xs d (All-below n xs out all))
]
