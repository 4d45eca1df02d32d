-- ===== src/Triggers/Due.antt =====
-- `progress_posted_list` of src/mp.c on a posted list with ascending ids.
use libmp.Base.{
  ℕ, ◌<◌, ◌≤◌, ◌≡◌, ◌≢◌, refl, sym, subst, List, [], ◌∷◌, ◌++◌, All, arith, ◌∈◌, ◌∉◌, Distinct,
  has-append, ◌⊎◌, inl, inr,
}
use libmp.Types.{Code, Ptr, Request, tx_flow, at_flow, pending}
use libmp.Env.{Env}
use libmp.Machine.{State}
use libmp.Machine.Outcome.{Returns, Returns-mono}
use libmp.Posted.{posted_loop}
use libmp.Posted.Loop.{Postable}
use libmp.Posted.Prefix.{Posts, Stops, Chain-Distinct, posted_loop-Posts, All-map}
use libmp.Triggers.{Ascends, mark}
use libmp.Triggers.Ordered.{ids, OrderedQueue}

Distinct-apart : (ys zs : List Ptr) (a : Ptr) → Distinct (ys ++ zs) → a ∈ zs → a ∉ ys
Distinct-apart [] zs a d i = refl
Distinct-apart (y ∷ ys) zs a (out, d) i =
    ground (arith, has-append y ys zs, Distinct-apart ys zs a d i)

All-append : (P : Ptr → Type 0) (ys zs : List Ptr) → All P ys → All P zs → All P (ys ++ zs)
All-append P [] zs p q = q
All-append P (y ∷ ys) zs (p, ps) q = (p, All-append P ys zs ps q)

All-zip : (P Q : Ptr → Type 0) (ys : List Ptr) → All P ys → All Q ys → All (λ a. P a × Q a) ys
All-zip P Q [] p q = tt
All-zip P Q (y ∷ ys) (p, ps) (q, qs) = ((p, q), All-zip P Q ys ps qs)

above :
    (h : Ptr → Request) (trigger low high : ℕ) (zs : List Ptr)
    → Ascends low (ids h zs) high
    → trigger ≤ low
    → All (λ a. trigger < (h a).id) zs
above h trigger low high [] up le = tt
above h trigger low high (z ∷ zs) (lt, up) le =
    (omega arith, above h trigger (h z).id high zs up (omega arith))

-- an ascending list whose suffix the loop was right to stop at
rest-above :
    (h : Ptr → Request) (trigger low high : ℕ) (ys zs : List Ptr)
    → Ascends low (ids h (ys ++ zs)) high
    → Stops h trigger zs
    → All (λ a. trigger < (h a).id) zs
rest-above h trigger low high [] [] up stop = tt
rest-above h trigger low high [] (z ∷ zs) (lt, up) stop =
    (stop, above h trigger (h z).id high zs up (omega arith))
rest-above h trigger low high (y ∷ ys) zs (lt, up) stop =
    rest-above h trigger (h y).id high ys zs up stop

-- the request is due and posted, or not due and as it was
abbrev pub DueOrKept : {W : Type 0} → (trigger : ℕ) → State W → State W → Ptr → Type 0
DueOrKept trigger s t a =
    (((s.reqs a).id ≤ trigger) × ((t.reqs a).status ≡ pending))
    ⊎ ((trigger < (s.reqs a).id) × ((t.reqs a).status ≡ (s.reqs a).status))

module _ {W : Type 0} (env : Env W) (client low : ℕ) where
  Posts-Due :
      (trigger : ℕ) (xs : List Ptr) (code : Code) (s t : State W)
      → OrderedQueue client low xs s
      → Posts client tx_flow trigger s xs code t
      → (code ≢ 0) ⊎ All (DueOrKept trigger s t) xs
  Posts-Due trigger xs code s t (q, up) (posted, rest, p) = elim p.stop [
    | inl bad ↦ inl bad
    | inr stop ↦ inr (
        let d : Distinct (posted ++ rest) =
          subst (λ ys. Distinct ys) p.order (Chain-Distinct xs q.chain).0 in
        let later : All (λ a. trigger < (s.reqs a).id) rest =
          rest-above s.reqs trigger low (mark s client tx_flow) posted rest
            (subst (λ ys. Ascends low (ids s.reqs ys) (mark s client tx_flow)) p.order up) stop in
        subst (λ ys. All (DueOrKept trigger s t) ys) (sym p.order)
          (All-append (DueOrKept trigger s t) posted rest
            (All-map posted
              (All-zip (λ a. (s.reqs a).id ≤ trigger) (λ a. (t.reqs a).status ≡ pending) posted
                p.ids p.pending)
              λ a i both. inl both)
            (All-map rest later λ a i lt. inr (lt, p.others a (Distinct-apart posted rest a d i)))))
  ]

  -- On a client's posted list of prepared transmit requests, all allocated, with ascending ids, the
  -- loop of progress_posted_list returns, and if its code is 0 then exactly the requests whose id
  -- the stream's trigger has reached are pending, and the others have the status that they had.
  pub posted_loop-Due :
      (xs : List Ptr) (s : State W)
      → 0 < s.brk
      → OrderedQueue client low xs s
      → All (λ a. a < s.brk) xs
      → All (Postable s.reqs) xs
      → Returns
          (λ code t.
            (code ≢ 0)
            ⊎ All (DueOrKept (at_flow (s.clients client).last_trigger_id tx_flow) s t) xs)
          (posted_loop env s.brk client tx_flow s)
  posted_loop-Due xs s pos q below ready =
      Returns-mono (posted_loop-Posts env client tx_flow xs s pos q.0 below ready) λ code t posts.
        Posts-Due (at_flow (s.clients client).last_trigger_id tx_flow) xs code s t q posts
