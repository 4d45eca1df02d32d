-- ===== src/Init/Failures.antt =====
-- The early returns of `mp_init` in src/mp.c, and what its loops over the peers have in common.
use libmp.Base.{
  ℕ, ◌+◌, ◌≤◌, ◌≡◌, refl, ap, Bool, true, false, Option, none, some, List, [], ◌∷◌, ◌++◌, arith,
}
use libmp.Machine.{State, M, exit_unless, ◌>>◌}
use libmp.Machine.Outcome.{Ensures, done, faults}
use libmp.Init.Verbs.{QpAttr}
use libmp.Init.Connect.{or_failure, unless_failure}

-- what holds of a result that is not `MP_FAILURE`
abbrev pub OnSuccess : {W A : Type 0} → (A → State W → Type 0) → Option A → State W → Type 0
OnSuccess P none t = Unit
OnSuccess P (some a) t = P a t

pub OnSuccess-mono :
    {W A : Type 0} (P Q : A → State W → Type 0) (o : Option A) (t : State W)
    → ((a : A) → P a t → Q a t)
    → OnSuccess P o t
    → OnSuccess Q o t
OnSuccess-mono P Q none t weaken p = tt
OnSuccess-mono P Q (some a) t weaken p = weaken a p

module _ {W A B : Type 0} {Q : B → State W → Type 0} where
  pub or_failure-Ensures :
      (P : A → State W → Type 0) (o : Option A) (k : A → M W (Option B)) (s : State W)
      → OnSuccess P o s
      → ((a : A) → P a s → Ensures (λ r t. OnSuccess Q r t) Unit (k a s))
      → Ensures (λ r t. OnSuccess Q r t) Unit (or_failure o k s)
  or_failure-Ensures P none k s p next = done tt
  or_failure-Ensures P (some a) k s p next = next a p

  pub or_failure-cases :
      (o : Option A) (k : A → M W (Option B)) (s : State W)
      → ((a : A) → o ≡ some a → Ensures (λ r t. OnSuccess Q r t) Unit (k a s))
      → Ensures (λ r t. OnSuccess Q r t) Unit (or_failure o k s)
  or_failure-cases none k s next = done tt
  or_failure-cases (some a) k s next = next a refl

module _ {W B : Type 0} {Q : B → State W → Type 0} where
  pub unless_failure-Ensures :
      (b : Bool) (m : M W (Option B)) (s : State W)
      → (b ≡ true → Ensures (λ r t. OnSuccess Q r t) Unit (m s))
      → Ensures (λ r t. OnSuccess Q r t) Unit (unless_failure b m s)
  unless_failure-Ensures true m s next = next refl
  unless_failure-Ensures false m s next = done tt

pub exit_unless-Ensures :
    {W A : Type 0} {Q : A → State W → Type 0} (b : Bool) (m : M W A) (s : State W)
    → Ensures Q Unit (m s)
    → Ensures Q Unit ((exit_unless b >> m) s)
exit_unless-Ensures true m s next = next
exit_unless-Ensures false m s next = faults tt

-- one attribute for each peer, by the client's index
abbrev pub stage : (ℕ → QpAttr) → (peers : List ℕ) → (i : ℕ) → List (ℕ × QpAttr)
stage attr [] i = []
stage attr (peer ∷ peers) i = (i, attr peer) ∷ stage attr peers (i + 1)

pub append-stage :
    (xs : List (ℕ × QpAttr)) (attr : ℕ → QpAttr) (peer : ℕ) (peers : List ℕ) (i : ℕ)
    → (xs ++ (i, attr peer) ∷ []) ++ stage attr peers (i + 1) ≡ xs ++ stage attr (peer ∷ peers) i
append-stage [] attr peer peers i = refl
append-stage (x ∷ xs) attr peer peers i = ap (λ ys. x ∷ ys) (append-stage xs attr peer peers i)

-- `P` holds of each peer and the client that has its index.
abbrev pub Clients : (ℕ → ℕ → Type 0) → (peers : List ℕ) → (i : ℕ) → Type 0
Clients P [] i = Unit
Clients P (peer ∷ peers) i = P peer i × Clients P peers (i + 1)

pub Clients-mono :
    (P Q : ℕ → ℕ → Type 0) (peers : List ℕ) (i : ℕ)
    → ((peer j : ℕ) → i ≤ j → P peer j → Q peer j)
    → Clients P peers i
    → Clients Q peers i
Clients-mono P Q [] i weaken all = tt
Clients-mono P Q (peer ∷ peers) i weaken (p, all) = (
  weaken peer i (omega arith) p,
  Clients-mono P Q peers (i + 1) (λ q j le. weaken q j (omega arith)) all,
)
