-- ===== src/Triggers/Released.antt =====
-- What the release of a prepared request in src/mp_peersync.c leaves alone, and what it adds to the
-- batch.
use libmp.Base.{
  ℕ, ◌≡◌, ◌≢◌, refl, ◌∙◌, ap, Bool, true, false, List, [], ◌∷◌, ◌++◌, arith, ◌==◌, ltb, leb,
  if◌then◌else◌, ◌∈◌, ◌∉◌, update_ne, update-related, Bool-cases, ◌⊎◌, inl, inr, some,
}
use mathlib.Core.List.{append-nil}
use libmp.Types.{
  is_tx-types, Code, Ptr, null, Request, MpFlow, tx_flow, at_flow, Desc, write_value32,
  wait_value32, trigger_id, is_tx, Word32, WaitCond,
}
use libmp.Env.{Env}
use libmp.Machine.{State, pure}
use libmp.Machine.Outcome.{
  Returns, returns, Ensures, done, faults, Ensures-bind, Returns-bind, Returns-and,
}
use libmp.Machine.Commands.{assert-keeps}
use libmp.Machine.Heap.{Chain-nil, Chain-head}
use libmp.Posted.{append_req, client_track_posted_stream_req}
use libmp.Posted.Links.{last_of, last_of-In, SameRequest}
use libmp.Posted.Queue.{Queue, client_track_posted_stream_req-Queue}
use libmp.Stream.{post_prepared, advance_trigger, release_at, block_on, and_batch}
use libmp.Triggers.{mark, trigger_values, trigger_values-append}
use libmp.Triggers.Ordered.{OrderedQueue, advanced, advanced-Queue}

-- Only `p` and the requests of the list change.
abbrev pub Untouched : {W : Type 0} → Ptr → List Ptr → State W → State W → Type 0
Untouched p xs s t = (a : Ptr) → a ≢ p → a ∉ xs → t.reqs a ≡ s.reqs a

module _ {W : Type 0} where
  append-Untouched :
      (last p : Ptr) (s : State W)
      → Ensures
          (λ _ t. ((a : Ptr) → a ≢ last → a ≢ p → t.reqs a ≡ s.reqs a) × (t.brk ≡ s.brk))
          Unit
          (append_req last p s)
  unfolding append_req
  append-Untouched last p s = elim (Bool-cases (last == null)) [
    | inl e ↦ rw e (faults tt)
    | inr e ↦ rw e (elim (Bool-cases (p == null)) [
      | inl e' ↦ rw e' (faults tt)
      | inr e' ↦
          rw (e', e')
            (assert-keeps
              (λ t. ((a : Ptr) → a ≢ last → a ≢ p → t.reqs a ≡ s.reqs a) × (t.brk ≡ s.brk)) _ _
              (λ a ne ne'. update_ne _ p a _ ne' ∙ update_ne s.reqs last a _ ne, refl))
    ])
  ]

  track-Untouched :
      (client : ℕ) (flow : MpFlow) (p : Ptr) (xs : List Ptr) (s : State W)
      → Queue client flow xs s
      → Ensures
          (λ _ t. Untouched p xs s t × (t.brk ≡ s.brk))
          Unit
          (client_track_posted_stream_req client p flow s)
  unfolding client_track_posted_stream_req
  track-Untouched client flow p [] s q =
      let e : (at_flow (s.clients client).posted_stream_req flow == null) ≡ true =
        rw (Chain-nil q.chain) refl in
      let e' : (at_flow (s.clients client).last_posted_stream_req flow == null) ≡ true =
        rw (q.last) refl in
      rw (e, e') (done (λ a ne out. refl, refl))
  track-Untouched client flow p (x ∷ xs) s q =
      let last : Ptr = last_of x xs in
      let inside : last ∈ x ∷ xs = last_of-In x xs in
      let head : (at_flow (s.clients client).posted_stream_req flow == null) ≡ false =
        ground (arith, Chain-head q.chain) in
      rw (head, q.last)
        (Ensures-bind (append-Untouched last p s) (λ f. f)
          λ _ t (kept, brk). done (λ a ne out. kept a (ground (arith, inside)) ne, brk))

-- the fields of a request that the release keeps
abbrev pub Keys : Request → Request → Type 0
Keys q r = (r.type ≡ q.type) × (r.status ≡ q.status) × (r.id ≡ q.id) × (r.peer ≡ q.peer)

SameRequest-Keys : (q r : Request) → SameRequest q r → Keys q r
SameRequest-Keys q r e = (
  ap (λ (x : Request). x.type) e,
  ap (λ (x : Request). x.status) e,
  ap (λ (x : Request). x.id) e,
  ap (λ (x : Request). x.peer) e,
)

-- What the release of `p` leaves, if it succeeds: its id is the last one that the batch writes.
abbrev pub Adds :
    {W : Type 0} → ℕ → Ptr → List Ptr → List Desc → State W → List Desc → State W → Type 0
Adds i p xs descs s descs' t = record {
  untouched : Untouched p xs s t;
  keys : (a : Ptr) → Keys (s.reqs a) (t.reqs a);
  values : trigger_values i tx_flow descs' ≡ trigger_values i tx_flow descs ++ (s.reqs p).id ∷ [];
  brk : t.brk ≡ s.brk;
}

own_write :
    (i id : ℕ) (descs : List Desc)
    → trigger_values i tx_flow (descs ++ write_value32 (trigger_id i tx_flow) id ∷ [])
      ≡ trigger_values i tx_flow descs ++ id ∷ []
own_write i id descs =
    let self : (i == i) ≡ true = ground arith in
    rw (trigger_values-append i tx_flow descs (write_value32 (trigger_id i tx_flow) id ∷ []), self)
      refl

no_write :
    (i value : ℕ) (word : Word32) (cond : WaitCond) (descs : List Desc)
    → trigger_values i tx_flow (descs ++ wait_value32 word value cond ∷ [])
      ≡ trigger_values i tx_flow descs
no_write i value word cond descs =
    trigger_values-append i tx_flow descs (wait_value32 word value cond ∷ [])
    ∙ append-nil (trigger_values i tx_flow descs)

module _ {W : Type 0} (env : Env W) (i low : ℕ) where
  release_at-Adds :
      (p : Ptr) (xs : List Ptr) (descs : List Desc) (s : State W)
      → OrderedQueue i low xs s
      → p ≢ null
      → p ∉ xs
      → (s.reqs p).next ≡ null
      → (s.reqs p).prev ≡ null
      → Returns
          (λ batch t. (batch.0 ≢ 0) ⊎ Adds i p xs descs s batch.1 t)
          (release_at env i tx_flow p (s.reqs p).id descs (advanced i (s.reqs p).id s))
  unfolding release_at
  release_at-Adds p xs descs s (q, up) ne out next prev =
      let id : ℕ = (s.reqs p).id in
      let q' : Queue i tx_flow xs (advanced i id s) = advanced-Queue i low id xs s q in
      elim (Bool-cases ((env.gds_prepare_write_value32 (trigger_id i tx_flow) id s.world).0 == 0)) [
        | inr e ↦ rw e (returns (inl (ground arith)))
        | inl e ↦ rw e (
            Returns-bind
              (Returns-and
                (client_track_posted_stream_req-Queue i tx_flow p xs _ q' ne out next prev)
                (track-Untouched i tx_flow p xs _ q'))
              λ _ t ((_, same), (kept, brk)). returns (
                inr (record {
                  untouched = kept;
                  keys = λ a. SameRequest-Keys (s.reqs a) (t.reqs a) (same a);
                  values = own_write i id descs;
                  brk = brk;
                })))
      ]

  -- the wait for the id changes a mark of the request and of the client
  blocked-Adds :
      (p : Ptr) (xs : List Ptr) (id : ℕ) (descs descs' : List Desc) (s t : State W)
      → p ≢ null
      → Adds i p xs descs s descs' t
      → Returns
          (λ batch u. (batch.0 ≢ 0) ⊎ Adds i p xs descs s batch.1 u)
          (block_on env i tx_flow tx_flow p id descs' t)
  unfolding block_on
  blocked-Adds p xs id descs descs' s t ne adds =
      let e : (p == null) ≡ false = ground arith in
      elim (Bool-cases (ltb (at_flow (t.clients i).last_posted_tracked_id tx_flow) id)) [
        | inr old ↦ rw old (returns (inr adds))
        | inl new ↦
            rw (new, e)
              (returns (
                inr (record {
                  untouched =
                      λ a other out. update_ne t.reqs p a _ other ∙ adds.untouched a other out;
                  keys = λ a.
                      update-related (λ q r. Keys (s.reqs a) q → Keys (s.reqs a) r) (λ q k. k)
                        t.reqs p _ (λ k. k) a (adds.keys a);
                  values = no_write i id _ _ descs' ∙ adds.values;
                  brk = adds.brk;
                })))
      ]

  behind :
      (block : Bool) (p : Ptr) (xs : List Ptr) (id : ℕ) (descs : List Desc)
      (batch : Code × List Desc) (s t : State W)
      → p ≢ null
      → (batch.0 ≢ 0) ⊎ Adds i p xs descs s batch.1 t
      → Returns
          (λ after u. (after.0 ≢ 0) ⊎ Adds i p xs descs s after.1 u)
          ((if block then and_batch batch (block_on env i tx_flow tx_flow p id) else pure batch) t)
  behind false p xs id descs batch s t ne either = returns either
  behind true p xs id descs (ret, descs') s t ne (inl bad) =
      let e : (ret == 0) ≡ false = ground arith in rw e (returns (inl bad))
  behind true p xs id descs (ret, descs') s t ne (inr adds) = elim (Bool-cases (ret == 0)) [
    | inr e ↦ rw e (returns (inr adds))
    | inl e ↦ rw e (blocked-Adds p xs id descs descs' s t ne adds)
  ]

  -- post_prepared, for a request that can join the posted list
  pub post_prepared-Adds :
      (block : Bool) (p : Ptr) (xs : List Ptr) (descs : List Desc) (s : State W)
      → OrderedQueue i low xs s
      → env.config.client_index (s.reqs p).peer ≡ some i
      → is_tx (s.reqs p).type ≡ true
      → p ≢ null
      → p ∉ xs
      → (s.reqs p).next ≡ null
      → (s.reqs p).prev ≡ null
      → Returns
          (λ batch t. (batch.0 ≢ 0) ⊎ Adds i p xs descs s batch.1 t)
          (post_prepared env block p descs s)
  unfolding post_prepared advance_trigger
  post_prepared-Adds block p xs descs s (q, up) at tx ne out next prev =
      let e : (p == null) ≡ false = ground arith in
      let (live, _, _) = is_tx-types (s.reqs p).type tx in
      elim (Bool-cases (leb (s.reqs p).id (mark s i tx_flow))) [
        | inl old ↦ rw (e, at, live, tx, old) (returns (inl (ground arith)))
        | inr new ↦
            rw (e, at, live, tx, new)
              (Returns-bind (release_at-Adds p xs descs s (q, up) ne out next prev)
                λ batch t either. behind block p xs (s.reqs p).id descs batch s t ne either)
      ]
