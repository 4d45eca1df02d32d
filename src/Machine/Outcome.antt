-- ===== src/Machine/Outcome.antt =====
-- Statements about how a command ends.
use libmp.Machine.{State, Fault, Out, ok, fault, M, and_then}

-- It returns, and the result satisfies `P`.
pub data Returns {W A : Type 0} (P : A → State W → Type 0) : Out W A → Type 0 where
  returns : {a : A} {s : State W} → P a s → Returns P (ok a s)

-- It returns and the result satisfies `P`, or it ends in a fault and `F` holds. Its fuel does not
-- run out.
pub data Ensures {W A : Type 0} (P : A → State W → Type 0) (F : Type 0) : Out W A → Type 0 where
  done : {a : A} {s : State W} → P a s → Ensures P F (ok a s)
  faults : {f : Fault} → F → Ensures P F (fault f)

module _ {W A : Type 0} {P : A → State W → Type 0} where
  pub Returns-Ensures : {F : Type 0} {r : Out W A} → Returns P r → Ensures P F r
  Returns-Ensures (returns p) = done p

  -- Where no fault can happen the command returns.
  pub Ensures-Returns : {F : Type 0} {r : Out W A} → Ensures P F r → ¬ F → Returns P r
  Ensures-Returns (done p) never = returns p
  Ensures-Returns (faults f) never = absurd (never f)

  pub Returns-bind :
      {B : Type 0} {Q : B → State W → Type 0} {r : Out W A} {k : A → M W B}
      → Returns P r
      → ((a : A) (s : State W) → P a s → Returns Q (k a s))
      → Returns Q (and_then r k)
  Returns-bind (returns p) next = next _ _ p

  pub Returns-mono :
      {Q : A → State W → Type 0} {r : Out W A}
      → Returns P r
      → ((a : A) (s : State W) → P a s → Q a s)
      → Returns Q r
  Returns-mono (returns p) weaken = returns (weaken _ _ p)

  -- two statements about one command that returns
  pub Returns-and :
      {Q : A → State W → Type 0} {F : Type 0} {r : Out W A}
      → Returns P r
      → Ensures Q F r
      → Returns (λ a s. P a s × Q a s) r
  Returns-and (returns p) (done q) = returns (p, q)

module _ {W A : Type 0} {P : A → State W → Type 0} {F : Type 0} where
  -- the fault of the first part, or of what follows
  pub Ensures-bind :
      {B G : Type 0} {Q : B → State W → Type 0} {r : Out W A} {k : A → M W B}
      → Ensures P F r
      → (F → G)
      → ((a : A) (s : State W) → P a s → Ensures Q G (k a s))
      → Ensures Q G (and_then r k)
  Ensures-bind (done p) wider next = next _ _ p
  Ensures-bind (faults f) wider next = faults (wider f)

  pub Ensures-mono :
      {G : Type 0} {Q : A → State W → Type 0} {r : Out W A}
      → Ensures P F r
      → (F → G)
      → ((a : A) (s : State W) → P a s → Q a s)
      → Ensures Q G r
  Ensures-mono (done p) wider weaken = done (weaken _ _ p)
  Ensures-mono (faults f) wider weaken = faults (wider f)

  -- two statements about one command
  pub Ensures-and :
      {G : Type 0} {Q : A → State W → Type 0} {r : Out W A}
      → Ensures P F r
      → Ensures Q G r
      → Ensures (λ a s. P a s × Q a s) F r
  Ensures-and (done p) (done q) = done (p, q)
  Ensures-and (faults f) (faults g) = faults f
