-- ===== src/Comm/Peers.antt =====
-- The tables of peers that `comm_init` of src/comm_library/comm.cpp makes for `mp_init`.
use libmp.Base.{
  ℕ, zero, suc, ◌+◌, ◌<◌, ◌≤◌, ◌≡◌, ◌≢◌, refl, ◌∙◌, sym, subst, Bool, true, false, ◌||◌, Option,
  none, some, List, [], ◌∷◌, ◌++◌, arith, ◌==◌, ltb, if◌then◌else◌, length, length-append, has,
  has-append, ◌∈◌, ◌∉◌, Distinct, update, update_self, update_ne, Bool-cases, ◌⊎◌, inl, inr,
}
use libmp.Init.Failures.{Clients}
use libmp.Comm.Tables.{peer_tables}

Clients-snoc :
    (P : ℕ → ℕ → Type 0) (peers : List ℕ) (k a : ℕ)
    → Clients P peers k
    → P a (k + length peers)
    → Clients P (peers ++ a ∷ []) k
Clients-snoc P [] k a all p = (subst (λ j. P a j) (omega arith) p, tt)
Clients-snoc P (x ∷ peers) k a (q, all) p =
    (q, Clients-snoc P peers (k + 1) a all (subst (λ j. P a j) (omega arith) p))

Distinct-snoc : (xs : List ℕ) (a : ℕ) → Distinct xs → a ∉ xs → Distinct (xs ++ a ∷ [])
Distinct-snoc [] a d out = (refl, tt)
Distinct-snoc (x ∷ xs) a (out', d) out =
    (rw (has-append x xs (a ∷ [])) (ground arith), Distinct-snoc xs a d (ground arith))

pub Clients-and :
    (P Q : ℕ → ℕ → Type 0) (peers : List ℕ) (k : ℕ)
    → Clients P peers k
    → Clients Q peers k
    → Clients (λ peer i. P peer i × Q peer i) peers k
Clients-and P Q [] k all all' = tt
Clients-and P Q (x ∷ peers) k (p, all) (q, all') = ((p, q), Clients-and P Q peers (k + 1) all all')

-- a peer is at its place
pub Clients-member :
    (P : ℕ → ℕ → Type 0) (peers : List ℕ) (k a : ℕ)
    → Clients P peers k
    → a ∈ peers
    → (i : ℕ) × P a i × (i < k + length peers)
Clients-member P [] k a all e = absurd (ground arith)
Clients-member P (x ∷ peers) k a (p, all) e = elim (Bool-cases (a == x)) [
  | inl same ↦ (k, subst (λ b. P b k) (ground arith) p, omega arith)
  | inr other ↦
      let (i, q, lt) = Clients-member P peers (k + 1) a all (ground arith) in (i, q, omega arith)
]

Clients-update :
    (index : ℕ → Option ℕ) (peers : List ℕ) (k a : ℕ) (o : Option ℕ)
    → a ∉ peers
    → Clients (λ peer j. index peer ≡ some j) peers k
    → Clients (λ peer j. update index a o peer ≡ some j) peers k
Clients-update index [] k a o out all = tt
Clients-update index (x ∷ peers) k a o out (p, all) = (
  update_ne index a x o (ground arith) ∙ p,
  Clients-update index peers (k + 1) a o (ground arith) all,
)

-- The tables hold the ranks below `i`, without `rank`.
abbrev pub Holds : (rank i : ℕ) → List ℕ → (ℕ → Option ℕ) → Type 0
Holds rank i peers index = record {
  all : (a : ℕ) → (i ≤ a) ⊎ ((a ≡ rank) ⊎ (a ∈ peers));
  below : (a : ℕ) → (a < i) ⊎ (a ∉ peers);
  out : rank ∉ peers;
  distinct : Distinct peers;
  places : Clients (λ peer j. index peer ≡ some j) peers 0;
  own : (i ≤ rank) ⊎ (index rank ≡ none);
  count : length peers + (if ltb rank i then 1 else 0) ≡ i;
}

all_snoc :
    (i rank a : ℕ) (b : Bool)
    → (i ≤ a) ⊎ ((a ≡ rank) ⊎ (b ≡ true))
    → (i + 1 ≤ a) ⊎ ((a ≡ rank) ⊎ ((b || has a (i ∷ [])) ≡ true))
all_snoc i rank a b p = ground arith

below_snoc :
    (i a : ℕ) (b : Bool) → (a < i) ⊎ (b ≡ false) → (a < i + 1) ⊎ ((b || has a (i ∷ [])) ≡ false)
below_snoc i a b p = ground arith

new_out : (i : ℕ) (b : Bool) → (i < i) ⊎ (b ≡ false) → b ≡ false
new_out i b p = ground arith

count_snoc :
    (i rank n : ℕ)
    → i ≢ rank
    → n + (if ltb rank i then 1 else 0) ≡ i
    → n + 1 + (if ltb rank (i + 1) then 1 else 0) ≡ i + 1
count_snoc i rank n ne e = ground arith

Holds-own :
    (rank : ℕ) (peers : List ℕ) (index : ℕ → Option ℕ)
    → Holds rank rank peers index
    → Holds rank (rank + 1) peers (update index rank none)
Holds-own rank peers index h = record {
  all = λ a. ground (arith, h.all a);
  below = λ a. ground (arith, h.below a);
  out = h.out;
  distinct = h.distinct;
  places = Clients-update index peers 0 rank none h.out h.places;
  own = inr (update_self index rank none);
  count = ground (arith, h.count);
}

Holds-other :
    (rank i : ℕ) (peers : List ℕ) (index : ℕ → Option ℕ)
    → i ≢ rank
    → Holds rank i peers index
    → Holds rank (i + 1) (peers ++ i ∷ []) (update index i (some (length peers)))
Holds-other rank i peers index ne h = record {
  all = λ a. rw (has-append a peers (i ∷ [])) (all_snoc i rank a (has a peers) (h.all a));
  below = λ a. rw (has-append a peers (i ∷ [])) (below_snoc i a (has a peers) (h.below a));
  out = rw (has-append rank peers (i ∷ [])) (ground (arith, h.out));
  distinct = Distinct-snoc peers i h.distinct (new_out i (has i peers) (h.below i));
  places =
      Clients-snoc _ peers 0 i
        (Clients-update index peers 0 i (some (length peers)) (new_out i (has i peers) (h.below i))
          h.places)
        (subst (λ n. update index i (some (length peers)) i ≡ some n) (omega arith)
          (update_self index i (some (length peers))));
  own = elim h.own [
    | inl le ↦ inl (omega arith)
    | inr e ↦ inr (update_ne index i rank _ (λ same. ne (sym same)) ∙ e)
  ];
  count = rw (length-append peers (i ∷ [])) (count_snoc i rank (length peers) ne h.count);
}

-- the loop, from rank `i` on
peer_tables-Holds :
    (rank n i : ℕ) (peers : List ℕ) (index : ℕ → Option ℕ)
    → Holds rank i peers index
    → Holds rank (i + n) (peer_tables rank n i peers index).0 (peer_tables rank n i peers index).1
unfolding peer_tables
peer_tables-Holds rank zero i peers index h = subst (λ k. Holds rank k peers index) (omega arith) h
peer_tables-Holds rank (suc n) i peers index h = elim (Bool-cases (i == rank)) [
  | inl own ↦
      let e : i ≡ rank = ground arith in
      rw own (
        subst
          (λ k.
            Holds rank k (peer_tables rank n (i + 1) peers (update index i none)).0
              (peer_tables rank n (i + 1) peers (update index i none)).1)
          (omega arith)
          (peer_tables-Holds rank n (i + 1) peers (update index i none) (
            subst (λ k. Holds rank (k + 1) peers (update index k none)) (sym e)
              (Holds-own rank peers index (subst (λ k. Holds rank k peers index) e h)))))
  | inr other ↦ rw other (
      subst
        (λ k.
          Holds rank k
            (peer_tables rank n (i + 1) (peers ++ i ∷ []) (update index i (some (length peers)))).0
            (peer_tables rank n (i + 1) (peers ++ i ∷ []) (update index i (some (length peers)))).1)
        (omega arith)
        (peer_tables-Holds rank n (i + 1) (peers ++ i ∷ []) (update index i (some (length peers)))
          (Holds-other rank i peers index (ground arith) h)))
]

-- the tables of `comm_init`
pub comm_tables-Holds :
    (rank size : ℕ)
    → Holds rank size
        (peer_tables rank size 0 [] (λ _. some 0)).0
        (peer_tables rank size 0 [] (λ _. some 0)).1
comm_tables-Holds rank size =
    subst
      (λ k.
        Holds rank k (peer_tables rank size 0 [] (λ _. some 0)).0
          (peer_tables rank size 0 [] (λ _. some 0)).1)
      (omega arith)
      (peer_tables-Holds rank size 0 [] (λ _. some 0)
        (record {
          all = λ a. inl (omega arith);
          below = λ a. inr refl;
          out = refl;
          distinct = tt;
          places = tt;
          own = inl (omega arith);
          count = ground arith;
        }))
