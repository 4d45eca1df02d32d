-- ===== src/Progress/Caught.antt =====
-- What a tracked id says of the requests up to it: the loop of `mp_progress_single_flow` of
-- src/mp.c over the polled completions, in the event-synchronous mode.
use libmp.Base.{
  List, [], ◌∷◌, if◌then◌else◌, ℕ, ◌<◌, ◌≡◌, refl, ◌∙◌, ap, sym, subst, Bool, true, false, ◌&&◌,
  ◌==◌, arith, update, update_self, update_ne, Bool-cases, ◌⊎◌, inl, inr,
}
use libmp.Types.{
  Ptr, null, Request, Client, MpState, complete, undef, n_states, MpFlow, tx_flow, rx_flow, at_flow,
  set_flow, Wc,
}
use libmp.Env.{Env}
use libmp.Machine.{State}
use libmp.Machine.Outcome.{Ensures, done, faults, Ensures-bind, Ensures-mono}
use libmp.Progress.{complete_entry, complete_all}
use libmp.Progress.Complete.{completed, seen, Seen, complete_entry-Seen}

-- prepared or in flight
abbrev pub unfinished : MpState → Bool
unfinished undef = false
unfinished complete = false
unfinished n_states = false
unfinished _ = true

-- `own` picks the requests of one queue. None of them with an id up to the one that the word of the
-- client and flow holds is unfinished.
abbrev pub Caught : {W : Type 0} → (own : Ptr → Bool) → (client : ℕ) → MpFlow → State W → Type 0
Caught own client flow s =
    (a : Ptr)
    → (own a ≡ false)
      ⊎ ((unfinished (s.reqs a).status ≡ false)
          ⊎ (at_flow (s.clients client).last_tracked_id flow < (s.reqs a).id))

-- No other request of the queue that is unfinished has an id up to that of `p`.
abbrev pub InOrder : (own : Ptr → Bool) → Ptr → (Ptr → Request) → Type 0
InOrder own p h =
    (a : Ptr)
    → (a ≡ p) ⊎ ((own a ≡ false) ⊎ ((unfinished (h a).status ≡ false) ⊎ ((h p).id < (h a).id)))

-- the requests behind a completion
abbrev pub after : Wc → (Ptr → Request) → Ptr → Request
after wc h = if wc.wr_id == null then h else update h wc.wr_id (completed (h wc.wr_id))

-- The completions come in the order of ids: each is without a request, or for one that comes first
-- among the unfinished ones.
abbrev pub Ordered : (own : Ptr → Bool) → List Wc → (Ptr → Request) → Type 0
Ordered own [] h = Unit
Ordered own (wc ∷ wcs) h =
    ((wc.wr_id ≡ null) ⊎ InOrder own wc.wr_id h) × Ordered own wcs (after wc h)

set_flow_self :
    (flow : MpFlow) (c : Client) (id : ℕ) → at_flow (set_flow c.last_tracked_id flow id) flow ≡ id
set_flow_self tx_flow c id = refl
set_flow_self rx_flow c id = refl

module _ {W : Type 0} (env : Env W) where
  open env use {config}

  -- the word holds what it did, or the id of the request that is complete
  seen-tracked :
      (flow : MpFlow) (r : Request) (c : Client)
      → (at_flow (seen env flow r c).last_tracked_id flow ≡ at_flow c.last_tracked_id flow)
        ⊎ (at_flow (seen env flow r c).last_tracked_id flow ≡ r.id)
  seen-tracked flow r c = elim (Bool-cases (config.use_event_sync && r.trigger)) [
    | inl e ↦ inr (rw e (set_flow_self flow c r.id))
    | inr e ↦ inl (rw e refl)
  ]

  Seen-Caught :
      (own : Ptr → Bool) (client : ℕ) (flow : MpFlow) (wc : Wc) (s t : State W)
      → Caught own client flow s
      → InOrder own wc.wr_id s.reqs
      → Seen env client flow wc s t
      → Caught own client flow t
  Seen-Caught own client flow wc s t caught ordered (inl (e, same)) a =
      subst (λ u. Caught own client flow u) (sym same) caught a
  Seen-Caught own client flow wc s t caught ordered (inr (flying, reqs, clients, _, _, _)) a =
      let p : Ptr = wc.wr_id in
      let r : Request = s.reqs p in
      let moved : t.clients client ≡ seen env flow r (s.clients client) =
        clients client ∙ update_self s.clients client _ in
      elim (Bool-cases (a == p)) [
        | inl e ↦
            let eq : a ≡ p = ground arith in
            let over : t.reqs a ≡ completed r =
              ap (λ f. f a) reqs
              ∙ ap (λ b. update s.reqs p (completed r) b) eq
              ∙ update_self s.reqs p _ in
            inr (inl (ap (λ (q : Request). unfinished q.status) over))
        | inr ne ↦
            let kept : t.reqs a ≡ s.reqs a =
              ap (λ f. f a) reqs ∙ update_ne s.reqs p a _ (ground arith) in
            rw (kept, moved)
              (elim (ordered a) [
                | inl eq ↦ absurd (ground arith)
                | inr (inl other) ↦ inl other
                | inr (inr (inl finished)) ↦ inr (inl finished)
                | inr (inr (inr lt)) ↦ elim (caught a) [
                  | inl other ↦ inl other
                  | inr (inl finished) ↦ inr (inl finished)
                  | inr (inr lt') ↦ inr (
                      inr (elim (seen-tracked flow r (s.clients client)) [
                        | inl same ↦ rw same lt'
                        | inr new ↦ rw new lt
                      ]))
                ]
              ])
      ]

  Seen-after :
      (client : ℕ) (flow : MpFlow) (wc : Wc) (s t : State W)
      → wc.wr_id == null ≡ false
      → Seen env client flow wc s t
      → t.reqs ≡ after wc s.reqs
  Seen-after client flow wc s t ne (inl (e, same)) = absurd (ground arith)
  Seen-after client flow wc s t ne (inr (flying, reqs, _, _, _, _)) = rw ne reqs

  complete_entry-Caught :
      (own : Ptr → Bool) (client : ℕ) (flow : MpFlow) (wc : Wc) (s : State W)
      → Caught own client flow s
      → (wc.wr_id ≡ null) ⊎ InOrder own wc.wr_id s.reqs
      → Ensures
          (λ _ t. Caught own client flow t × (t.reqs ≡ after wc s.reqs))
          Unit
          (complete_entry env client flow wc s)
  unfolding complete_entry
  complete_entry-Caught own client flow wc s caught ordered = elim (Bool-cases (wc.wr_id == null)) [
    | inl e ↦ elim (Bool-cases wc.success) [
      | inr bad ↦ rw bad (faults tt)
      | inl good ↦ rw (good, e) (done (caught, refl))
    ]
    | inr ne ↦
        Ensures-mono (complete_entry-Seen env client flow wc s) (λ _. tt)
          λ _ t saw. (
            elim ordered [
              | inl e ↦ absurd (ground arith)
              | inr first ↦ Seen-Caught own client flow wc s t caught first saw
            ],
            Seen-after client flow wc s t ne saw,
          )
  ]

  -- Where no request of a queue, the requests that `own` picks, with an id up to the tracked id of
  -- the client and flow is prepared or in flight, and completions come in the order of ids, each
  -- without a request or for one such that no other request of the queue with an id up to its id
  -- is prepared or in flight when it comes: complete_all returns or faults, and then too no request
  -- of the queue with an id up to the tracked id is prepared or in flight.
  pub complete_all-Caught :
      (own : Ptr → Bool) (client : ℕ) (flow : MpFlow) (wcs : List Wc) (s : State W)
      → Caught own client flow s
      → Ordered own wcs s.reqs
      → Ensures (λ _ t. Caught own client flow t) Unit (complete_all env client flow wcs s)
  unfolding complete_all
  complete_all-Caught own client flow [] s caught ordered = done caught
  complete_all-Caught own client flow (wc ∷ wcs) s caught (first, ordered) =
      Ensures-bind (complete_entry-Caught own client flow wc s caught first) (λ f. f)
        λ _ t (caught', moved).
          complete_all-Caught own client flow wcs t caught'
            (subst (λ h. Ordered own wcs h) (sym moved) ordered)
