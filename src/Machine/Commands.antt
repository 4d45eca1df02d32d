-- ===== src/Machine/Commands.antt =====
-- Assertions and tests, where a fault is not excluded.
use libmp.Base.{arith, ◌≡◌, refl, Bool, true, false, if◌then◌else◌}
use libmp.Machine.{State, M, assert, and_then}
use libmp.Machine.Outcome.{Ensures, done, faults, Returns}

module _ {W : Type 0} (P : State W → Type 0) where
  -- an assertion keeps a predicate on states
  pub assert-keeps : (b : Bool) (s : State W) → P s → Ensures (λ _ t. P t) Unit (assert b s)
  assert-keeps true s p = done p
  assert-keeps false s p = faults tt

-- both branches of a test
pub branch :
    {W A : Type 0} (P : A → State W → Type 0) (b : Bool) (m n : M W A) (s : State W)
    → (b ≡ true → Ensures P Unit (m s))
    → (b ≡ false → Ensures P Unit (n s))
    → Ensures P Unit ((if b then m else n) s)
branch P true m n s f g = f refl
branch P false m n s f g = g refl

-- an assertion that holds
pub assert-passes :
    {W A : Type 0} {Q : A → State W → Type 0} (b : Bool) (k : Unit {0} → M W A) (s : State W)
    → b ≡ true
    → Returns Q (k tt s)
    → Returns Q (and_then (assert b s) k)
assert-passes true k s e next = next
assert-passes false k s e next = absurd (ground (arith, e))
