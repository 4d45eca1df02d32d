-- ===== src/Triggers/Ordered.antt =====
-- The posted list and the order of its ids: the release of a prepared request in
-- src/mp_peersync.c.
use libmp.Base.{
  ℕ, ◌<◌, ◌≡◌, refl, ◌≢◌, ◌∙◌, ap, sym, subst, Bool, true, false, List, [], ◌∷◌, ◌++◌, arith, ◌==◌,
  ltb, leb, if◌then◌else◌, update, update_self, update-related, Bool-cases, inl, inr, ◌⊎◌, some,
  ◌∉◌,
}
use libmp.Types.{
  is_tx-types, Code, Ptr, null, Flows, tx_flow, at_flow, Desc, is_tx, Request, trigger_id,
}
use libmp.Env.{Env}
use libmp.Machine.{State, pure}
use libmp.Machine.Outcome.{Returns, returns, Returns-bind, Returns-mono, Returns-and}
use libmp.Machine.Heap.{Chain-frame}
use libmp.Posted.Links.{Links-frame}
use libmp.Posted.Queue.{Queue, client_track_posted_stream_req-Queue}
use libmp.Stream.{post_prepared, advance_trigger, release_at, block_on, and_batch}
use libmp.Triggers.{mark, Ascends, Ascends-raise, Ascends-snoc, track-SameMarks, marked}

abbrev pub ids : (Ptr → Request) → List Ptr → List ℕ
ids h [] = []
ids h (x ∷ xs) = (h x).id ∷ ids h xs

ids-snoc :
    (h : Ptr → Request) (xs : List Ptr) (p : Ptr) → ids h (xs ++ p ∷ []) ≡ ids h xs ++ (h p).id ∷ []
ids-snoc h [] p = refl
ids-snoc h (x ∷ xs) p = ap (λ ys. (h x).id ∷ ys) (ids-snoc h xs p)

pub ids-same :
    (h g : Ptr → Request) (xs : List Ptr) → ((a : Ptr) → (g a).id ≡ (h a).id) → ids g xs ≡ ids h xs
ids-same h g [] same = refl
ids-same h g (x ∷ xs) same = rw (same x, ids-same h g xs same) refl

-- The posted list of the client's transmit flow is `xs`, with ids that ascend from above `low` to
-- at most the last one posted.
abbrev pub OrderedQueue : {W : Type 0} → ℕ → (low : ℕ) → List Ptr → State W → Type 0
OrderedQueue i low xs s = Queue i tx_flow xs s × Ascends low (ids s.reqs xs) (mark s i tx_flow)

-- the state with a new mark
abbrev pub advanced : {W : Type 0} → ℕ → ℕ → State W → State W
advanced i id s = record s { clients = update s.clients i (marked (s.clients i) tx_flow id) }

module _ {W : Type 0} (i low : ℕ) where
  pub advanced-Queue :
      (id : ℕ) (xs : List Ptr) (s : State W)
      → Queue i tx_flow xs s
      → Queue i tx_flow xs (advanced i id s)
  advanced-Queue id xs s q =
      simp update_self (record { chain = q.chain; links = q.links; last = q.last })

  advanced-mark : (id : ℕ) (s : State W) → mark (advanced i id s) i tx_flow ≡ id
  advanced-mark id s = simp update_self refl

  appended-Ascends :
      (p : Ptr) (xs : List Ptr) (s t : State W)
      → Ascends low (ids s.reqs xs) (mark s i tx_flow)
      → mark s i tx_flow < (s.reqs p).id
      → ((a : Ptr) → (t.reqs a).id ≡ (s.reqs a).id)
      → mark t i tx_flow ≡ (s.reqs p).id
      → Ascends low (ids t.reqs (xs ++ p ∷ [])) (mark t i tx_flow)
  appended-Ascends p xs s t up more same at =
      rw (ids-same s.reqs t.reqs (xs ++ p ∷ []) same, ids-snoc s.reqs xs p, at)
        (Ascends-snoc low (ids s.reqs xs) (mark s i tx_flow) (s.reqs p).id up more)

module _ {W : Type 0} (env : Env W) (i low : ℕ) where
  -- what the release of `p` leaves: `p` is at the end of the list, or an error left the list
  abbrev pub Joins : Ptr → List Ptr → Code → State W → Type 0
  Joins p xs ret t = OrderedQueue i low (xs ++ p ∷ []) t ⊎ ((ret ≢ 0) × OrderedQueue i low xs t)

  release_at-Joins :
      (p : Ptr) (xs : List Ptr) (descs : List Desc) (s : State W)
      → OrderedQueue i low xs s
      → p ≢ null
      → p ∉ xs
      → (s.reqs p).next ≡ null
      → (s.reqs p).prev ≡ null
      → mark s i tx_flow < (s.reqs p).id
      → Returns
          (λ batch t. Joins p xs batch.0 t)
          (release_at env i tx_flow p (s.reqs p).id descs (advanced i (s.reqs p).id s))
  unfolding release_at
  release_at-Joins p xs descs s (q, up) ne out next prev more =
      let id : ℕ = (s.reqs p).id in
      let q' : Queue i tx_flow xs (advanced i id s) = advanced-Queue i low id xs s q in
      elim (Bool-cases ((env.gds_prepare_write_value32 (trigger_id i tx_flow) id s.world).0 == 0)) [
        | inr e ↦ rw e (
            returns (
              inr (
                ground arith,
                (
                  q',
                  subst (λ m. Ascends low (ids s.reqs xs) m) (sym (advanced-mark i low id s))
                      (Ascends-raise low (ids s.reqs xs) (mark s i tx_flow) id up (omega arith)),
                ),
              )))
        | inl e ↦ rw e (
            Returns-bind
              (Returns-and
                (client_track_posted_stream_req-Queue i tx_flow p xs _ q' ne out next prev)
                (track-SameMarks i p tx_flow _))
              λ _ t ((q'', same), marks). returns (
                inl (
                  q'',
                  appended-Ascends i low p xs s t up more (λ a. ap (λ (r : Request). r.id) (same a))
                      (ap (λ (m : Flows ℕ). m.tx) (marks i) ∙ advanced-mark i low id s),
                )))
      ]

  block_on-Joins :
      (p : Ptr) (xs : List Ptr) (id : ℕ) (descs : List Desc) (s : State W)
      → p ≢ null
      → OrderedQueue i low xs s
      → Returns (λ _ t. OrderedQueue i low xs t) (block_on env i tx_flow tx_flow p id descs s)
  unfolding block_on
  block_on-Joins p xs id descs s ne (q, up) =
      let e : (p == null) ≡ false = ground arith in
      elim (Bool-cases (ltb (at_flow (s.clients i).last_posted_tracked_id tx_flow) id)) [
        | inr old ↦ rw old (returns (q, up))
        | inl new ↦
            rw (new, e)
              (returns (
                simp update_self (
                  record {
                    chain = Chain-frame q.chain λ a _.
                        update-related (λ x y. y.next ≡ x.next) (λ x. refl) s.reqs p _ refl a;
                    links =
                        Links-frame s.reqs (update s.reqs p (record (s.reqs p) { trigger = true }))
                          null xs q.links
                          λ a _.
                            update-related (λ x y. y.prev ≡ x.prev) (λ x. refl) s.reqs p _ refl a;
                    last = q.last;
                  },
                  subst (λ (l : List ℕ). Ascends low l (mark s i tx_flow))
                      (sym (
                        ids-same s.reqs (update s.reqs p (record (s.reqs p) { trigger = true })) xs
                          λ a. update-related (λ x y. y.id ≡ x.id) (λ x. refl) s.reqs p _ refl a))
                      up,
                )))
      ]

  -- behind the release, the wait for the id if it is asked for
  blocked-Joins :
      (block : Bool) (p : Ptr) (xs : List Ptr) (id : ℕ) (ret : Code) (descs : List Desc)
      (s : State W)
      → p ≢ null
      → Joins p xs ret s
      → Returns
          (λ batch t. Joins p xs batch.0 t)
          ((if block
              then and_batch (ret, descs) (block_on env i tx_flow tx_flow p id)
              else pure (ret, descs))
            s)
  blocked-Joins false p xs id ret descs s ne j = returns j
  blocked-Joins true p xs id ret descs s ne (inr (bad, q)) =
      let e : (ret == 0) ≡ false = ground arith in rw e (returns (inr (bad, q)))
  blocked-Joins true p xs id ret descs s ne (inl q) = elim (Bool-cases (ret == 0)) [
    | inr e ↦ rw e (returns (inl q))
    | inl e ↦
        rw e (Returns-mono (block_on-Joins p (xs ++ p ∷ []) id descs s ne q) λ batch t q'. inl q')
  ]

  -- For a transmit request of client `i` that is not linked and not on its posted list, where that
  -- list has ascending ids: post_prepared returns, and if its code is 0 the request has joined the
  -- list at its end. If another code is returned, it has joined too or the list is what it was. The
  -- ids ascend in every case, up to at most the last one posted.
  pub post_prepared-Joins :
      (block : Bool) (p : Ptr) (xs : List Ptr) (descs : List Desc) (s : State W)
      → OrderedQueue i low xs s
      → env.config.client_index (s.reqs p).peer ≡ some i
      → is_tx (s.reqs p).type ≡ true
      → p ≢ null
      → p ∉ xs
      → (s.reqs p).next ≡ null
      → (s.reqs p).prev ≡ null
      → Returns (λ batch t. Joins p xs batch.0 t) (post_prepared env block p descs s)
  unfolding post_prepared advance_trigger
  post_prepared-Joins block p xs descs s (q, up) at tx ne out next prev =
      let e : (p == null) ≡ false = ground arith in
      let (live, _, _) = is_tx-types (s.reqs p).type tx in
      elim (Bool-cases (leb (s.reqs p).id (mark s i tx_flow))) [
        | inl old ↦ rw (e, at, live, tx, old) (returns (inr (ground arith, (q, up))))
        | inr new ↦
            rw (e, at, live, tx, new)
              (Returns-bind (release_at-Joins p xs descs s (q, up) ne out next prev (ground arith))
                λ (ret, descs') t j. blocked-Joins block p xs (s.reqs p).id ret descs' t ne j)
      ]
