-- ===== src/Triggers/Reached.antt =====
-- Which requests `progress_posted_list` of src/mp.c posts while a stream is within a batch that
-- src/mp_peersync.c built.
use libmp.Base.{
  ℕ, ◌<◌, ◌≤◌, ◌≡◌, ◌≢◌, subst, List, [], ◌∷◌, ◌++◌, All, arith, ◌==◌, ◌∈◌, Bool-cases, ◌⊎◌, inl,
  inr,
}
use libmp.Types.{Ptr, tx_flow, at_flow, pending, Desc}
use libmp.Env.{Env}
use libmp.Machine.{State}
use libmp.Machine.Outcome.{Returns, Returns-mono}
use libmp.Posted.{posted_loop}
use libmp.Posted.Loop.{Postable}
use libmp.Posted.Prefix.{All-map}
use libmp.Triggers.{Ascends, Between, mark, trigger_values, trigger_values-append}
use libmp.Triggers.Ordered.{OrderedQueue}
use libmp.Triggers.Due.{DueOrKept, posted_loop-Due}

-- what a word holds once the values were written, one after the other
abbrev pub after_writes : (word : ℕ) → List ℕ → ℕ
after_writes word [] = word
after_writes word (value ∷ values) = after_writes value values

Ascends-bound :
    (low high : ℕ) (xs ys : List ℕ) → Ascends low (xs ++ ys) high → low ≤ after_writes low xs
Ascends-bound low high [] ys up = omega arith
Ascends-bound low high (x ∷ xs) ys (lt, up) = omega (arith, Ascends-bound x high xs ys up)

Ascends-above : (low high v : ℕ) (ys : List ℕ) → Ascends low ys high → v ∈ ys → low < v
Ascends-above low high v [] up i = absurd (ground arith)
Ascends-above low high v (y ∷ ys) (lt, up) i = elim (Bool-cases (v == y)) [
  | inl same ↦ ground arith
  | inr other ↦ omega (arith, Ascends-above y high v ys up (ground arith))
]

-- a value that was written is reached
written :
    (low high word v : ℕ) (xs ys : List ℕ)
    → Ascends low (xs ++ ys) high
    → v ∈ xs
    → v ≤ after_writes word xs
written low high word v [] ys up i = absurd (ground arith)
written low high word v (x ∷ xs) ys (lt, up) i = elim (Bool-cases (v == x)) [
  | inl same ↦ let e : v ≡ x = ground arith in omega (arith, Ascends-bound x high xs ys up)
  | inr other ↦ written x high x v xs ys up (ground arith)
]

-- a value that is still to be written is not
unwritten :
    (low high word v : ℕ) (xs ys : List ℕ)
    → Ascends low (xs ++ ys) high
    → word ≤ low
    → v ∈ ys
    → after_writes word xs < v
unwritten low high word v [] ys up le i = omega (arith, Ascends-above low high v ys up i)
unwritten low high word v (x ∷ xs) ys (lt, up) le i = unwritten x high x v xs ys up (omega arith) i

module _ {W : Type 0} (env : Env W) (i low : ℕ) where
  -- A request that the written part of the batch releases is pending; one that the other part
  -- releases has the status that it had.
  abbrev pub Reached : (written unwritten : List Desc) → (s t : State W) → Ptr → Type 0
  Reached written unwritten s t a =
      ((s.reqs a).id ∈ trigger_values i tx_flow written → (t.reqs a).status ≡ pending)
      × ((s.reqs a).id ∈ trigger_values i tx_flow unwritten → (t.reqs a).status ≡ (s.reqs a).status)

  settled :
      (first rest : List Desc) (word : ℕ) (before s t : State W) (a : Ptr)
      → Ascends
          (mark before i tx_flow)
          (trigger_values i tx_flow first ++ trigger_values i tx_flow rest)
          (mark s i tx_flow)
      → word ≤ mark before i tx_flow
      → at_flow (s.clients i).last_trigger_id tx_flow
        ≡ after_writes word (trigger_values i tx_flow first)
      → DueOrKept (at_flow (s.clients i).last_trigger_id tx_flow) s t a
      → Reached first rest s t a
  settled first rest word before s t a up le ran (inl (due, pend)) = (
    λ inside. pend,
    λ outside.
        let gt : after_writes word (trigger_values i tx_flow first) < (s.reqs a).id =
          unwritten (mark before i tx_flow) (mark s i tx_flow) word (s.reqs a).id _
            (trigger_values i tx_flow rest) up le outside in
        absurd (ground (arith, gt, due, ran)),
  )
  settled first rest word before s t a up le ran (inr (early, kept)) = (
    λ inside.
        let reached : (s.reqs a).id ≤ after_writes word (trigger_values i tx_flow first) =
          written (mark before i tx_flow) (mark s i tx_flow) word (s.reqs a).id
            (trigger_values i tx_flow first) _ up inside in
        absurd (ground (arith, reached, early, ran)),
    λ outside. kept,
  )

  -- On a client's posted list of prepared transmit requests, all allocated, with ascending ids, and
  -- for a batch that writes to the client's trigger word ids that ascend from the last id posted
  -- before to that posted now: if the stream has come through a first part of the batch, from a word
  -- that was not beyond the last id posted before, then the loop of progress_posted_list returns,
  -- and if its code is 0, each request of the list whose id the first part writes is pending, and
  -- each one whose id the rest of the batch writes has the status that it had.
  pub posted_loop-Reached :
      (first rest : List Desc) (word : ℕ) (xs : List Ptr) (before s : State W)
      → Between before (first ++ rest) s
      → word ≤ mark before i tx_flow
      → at_flow (s.clients i).last_trigger_id tx_flow
        ≡ after_writes word (trigger_values i tx_flow first)
      → 0 < s.brk
      → OrderedQueue i low xs s
      → All (λ a. a < s.brk) xs
      → All (Postable s.reqs) xs
      → Returns
          (λ code t. (code ≢ 0) ⊎ All (Reached first rest s t) xs)
          (posted_loop env s.brk i tx_flow s)
  posted_loop-Reached first rest word xs before s between le ran pos q below ready =
      let up : Ascends (mark before i tx_flow)
          (trigger_values i tx_flow first ++ trigger_values i tx_flow rest) (mark s i tx_flow) =
        subst (λ values. Ascends (mark before i tx_flow) values (mark s i tx_flow))
          (trigger_values-append i tx_flow first rest) (between i tx_flow) in
      Returns-mono (posted_loop-Due env i low xs s pos q below ready) λ code t either. elim either [
        | inl bad ↦ inl bad
        | inr due ↦
            inr (All-map xs due λ a inside one. settled first rest word before s t a up le ran one)
      ]
