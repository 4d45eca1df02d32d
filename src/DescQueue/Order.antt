-- ===== src/DescQueue/Order.antt =====
-- Sends and their waits through the descriptor queue of src/desc_queue.cpp.
use mathlib.Core.List.{append_assoc, append-nil}
use libmp.Base.{
  ℕ, subst, ◌≡◌, refl, ◌≢◌, ◌∙◌, ap, sym, true, false, some, List, [], ◌∷◌, ◌++◌, All, arith, ◌==◌,
  length, length-append, update, update_self, update_ne, has_flag, Distinct, ◌∉◌,
}
use libmp.Types.{
  is_tx-types, Code, Ptr, null, Request, MpState, prepared, mp_put_nowait, Desc, send_desc,
  wait_desc, is_tx,
}
use libmp.Env.{Env}
use libmp.Machine.{State, ok, M, pure, ◌>>=◌}
use libmp.Machine.Outcome.{Returns, returns, Returns-bind, Returns-mono}
use libmp.Posted.Prefix.{All-map}
use libmp.DescQueue.{
  QueuedDesc, queued_send, queued_wait, MpDescQueue, resolve, resolve_all, mp_desc_queue_add_send,
  mp_desc_queue_add_wait_send, mp_desc_queue_post_on_stream,
}

-- `p` is a prepared request of the transmit flow that is not a put without a wait.
abbrev pub Sendable : (Ptr → Request) → Ptr → Type 0
Sendable h p =
    (p ≢ null)
    × ((h p).status ≡ prepared)
    × (is_tx (h p).type ≡ true)
    × (has_flag (h p).flags mp_put_nowait ≡ false)

-- The requests `ps` are pending in `g` and as in `h` otherwise, and no other request differs.
abbrev pub Waited : (ps : List Ptr) → (h g : Ptr → Request) → Type 0
Waited ps h g =
    All (λ p. g p ≡ record (h p) { status = MpState.pending }) ps × ((a : Ptr) → a ∉ ps → g a ≡ h a)

-- the send and the wait of each request
abbrev pub batch_of : (Ptr → Request) → List Ptr → List Desc
batch_of h [] = []
batch_of h (p ∷ ps) = send_desc (h p).gds_send_info ∷ wait_desc (h p).gds_wait_info ∷ batch_of h ps

-- what the queue holds for them
abbrev queued : List Ptr → List QueuedDesc
queued [] = []
queued (p ∷ ps) = queued_send p ∷ queued_wait p ∷ queued ps

resolve_all-queued :
    (h : Ptr → Request) (descs : List QueuedDesc) (ps : List Ptr)
    → resolve_all h (descs ++ queued ps) ≡ resolve_all h descs ++ batch_of h ps
unfolding resolve_all
resolve_all-queued h [] [] = refl
resolve_all-queued h [] (p ∷ ps) =
    ap (λ ds. send_desc (h p).gds_send_info ∷ wait_desc (h p).gds_wait_info ∷ ds)
      (resolve_all-queued h [] ps)
resolve_all-queued h (d ∷ descs) ps = ap (λ ds. resolve h d ∷ ds) (resolve_all-queued h descs ps)

not_empty :
    (descs : List QueuedDesc) (p : Ptr) (ps : List Ptr)
    → (length (descs ++ queued (p ∷ ps)) == 0) ≡ false
not_empty descs p ps = ground (arith, length-append descs (queued (p ∷ ps)))

-- the requests once `p` is sent and waited for
abbrev waited : (Ptr → Request) → Ptr → Ptr → Request
waited h p =
    let g : Ptr → Request = update h p (record (h p) { status = MpState.pending_nowait }) in
    update g p (record (g p) { status = MpState.pending })

waited_other : (h : Ptr → Request) (p a : Ptr) → a ≢ p → waited h p a ≡ h a
waited_other h p a ne = update_ne _ p a _ ne ∙ update_ne h p a _ ne

waited_self :
    (h : Ptr → Request) (p : Ptr) → waited h p p ≡ record (h p) { status = MpState.pending }
waited_self h p =
    update_self _ p _
    ∙ ap (λ (r : Request). record r { status = MpState.pending }) (update_self h p _)

Waited-step :
    (p : Ptr) (ps : List Ptr) (h g : Ptr → Request)
    → p ∉ ps
    → Waited ps (waited h p) g
    → Waited (p ∷ ps) h g
Waited-step p ps h g out (pending, others) = (
  (
    others p out ∙ waited_self h p,
    All-map ps pending (λ a inside e.
        e
        ∙ ap (λ (r : Request). record r { status = MpState.pending })
            (waited_other h p a (ground arith))),
  ),
  λ a apart. others a (ground arith) ∙ waited_other h p a (ground arith),
)

Sendable-keep :
    (h : Ptr → Request) (p : Ptr) (ps : List Ptr)
    → p ∉ ps
    → All (λ a. Sendable h a) ps
    → All (λ a. Sendable (waited h p) a) ps
Sendable-keep h p ps out all = All-map ps all λ a inside can.
    subst
      (λ (r : Request).
        (a ≢ null)
        × (r.status ≡ prepared)
        × (is_tx r.type ≡ true)
        × (has_flag r.flags mp_put_nowait ≡ false))
      (sym (waited_other h p a (ground arith))) can

module _ {W : Type 0} where
  -- a send and its wait
  abbrev add_pair : Ptr → MpDescQueue → M W (Code × MpDescQueue)
  add_pair p dq = mp_desc_queue_add_send dq p >>= (λ r. mp_desc_queue_add_wait_send r.1 p)

  -- the same for each request in turn
  abbrev pub add_pairs : List Ptr → MpDescQueue → M W MpDescQueue
  add_pairs [] dq = pure dq
  add_pairs (p ∷ ps) dq = add_pair p dq >>= (λ r. add_pairs ps r.1)

  add_pair-waited :
      (p : Ptr) (descs : List QueuedDesc) (s : State W)
      → Sendable s.reqs p
      → add_pair p (some descs) s
        ≡ ok
            (0, some ((descs ++ queued_send p ∷ []) ++ queued_wait p ∷ []))
            (record s { reqs = waited s.reqs p })
  unfolding mp_desc_queue_add_send mp_desc_queue_add_wait_send
  add_pair-waited p descs s (ne, status, tx, wait) =
      let e : (p == null) ≡ false = ground arith in
      let (live, valid, rx) = is_tx-types (s.reqs p).type tx in
      simp (update_self, e, status, tx, live, valid, rx, wait) refl

  add_pairs-Waited :
      (ps : List Ptr) (descs : List QueuedDesc) (s : State W)
      → Distinct ps
      → All (λ p. Sendable s.reqs p) ps
      → Returns
          (λ dq t.
            (dq ≡ some (descs ++ queued ps))
            × Waited ps s.reqs t.reqs
            × (t ≡ record s { reqs = t.reqs }))
          (add_pairs ps (some descs) s)
  add_pairs-Waited [] descs s distinct all =
      returns (ap some (sym (append-nil descs)), (tt, λ a out. refl), refl)
  add_pairs-Waited (p ∷ ps) descs s (out, distinct) (one, all) =
      let u : State W = record s { reqs = waited s.reqs p } in
      let ds : List QueuedDesc = (descs ++ queued_send p ∷ []) ++ queued_wait p ∷ [] in
      rw (add_pair-waited p descs s one) (
        Returns-mono (add_pairs-Waited ps ds u distinct (Sendable-keep s.reqs p ps out all))
          λ dq t (e, w, same). (
            e
                ∙ ap some (
                    append_assoc (descs ++ queued_send p ∷ []) (queued_wait p ∷ []) (queued ps)
                    ∙ append_assoc descs (queued_send p ∷ []) (queued_wait p ∷ queued ps)),
            Waited-step p ps s.reqs t.reqs out w,
            same,
          ))

module _ {W : Type 0} (env : Env W) where
  -- The caller adds the pairs, does what it does to its requests, and posts the queue.
  abbrev pub send_and_wait :
      (stream : ℕ)
      → List Ptr
      → (change : (Ptr → Request) → Ptr → Request) → MpDescQueue
      → M W (Code × MpDescQueue)
  send_and_wait stream ps change dq =
      add_pairs ps dq
      >>= (λ r s. mp_desc_queue_post_on_stream env stream r (record s { reqs = change s.reqs }))

  -- The stream got one batch for what the requests were at the post.
  abbrev pub Handed :
      (stream : ℕ)
      → List Ptr
      → (change : (Ptr → Request) → Ptr → Request) → List QueuedDesc
      → State W
      → Code × MpDescQueue
      → State W
      → Type 0
  Handed stream ps change descs s r t =
      (g : Ptr → Request) × Waited ps s.reqs g
      × (let (code, w) =
            env.gds_stream_post_descriptors stream
              (resolve_all (change g) descs ++ batch_of (change g) ps) s.world in
          (r ≡ (code, some [])) × (t ≡ record s { world = w; reqs = change g }))

  post-Handed :
      (stream : ℕ) (p : Ptr) (ps : List Ptr) (descs : List QueuedDesc) (s : State W)
      → mp_desc_queue_post_on_stream env stream (some (descs ++ queued (p ∷ ps))) s ≡ (
          let (code, w) =
            env.gds_stream_post_descriptors stream
              (resolve_all s.reqs descs ++ batch_of s.reqs (p ∷ ps))
              s.world in
          ok (code, some []) (record s { world = w }))
  unfolding mp_desc_queue_post_on_stream
  post-Handed stream p ps descs s =
      rw (not_empty descs p ps) (rw (resolve_all-queued s.reqs descs (p ∷ ps)) refl)

  posted-Handed :
      (stream : ℕ) (p : Ptr) (ps : List Ptr) (change : (Ptr → Request) → Ptr → Request)
      (descs : List QueuedDesc) (s : State W) (g : Ptr → Request)
      → Waited (p ∷ ps) s.reqs g
      → Returns
          (λ r t. Handed stream (p ∷ ps) change descs s r t)
          (mp_desc_queue_post_on_stream env stream
            (some (descs ++ queued (p ∷ ps)))
            (record s { reqs = change g }))
  posted-Handed stream p ps change descs s g w =
      rw (post-Handed stream p ps descs (record s { reqs = change g }))
        (returns (g, w, (refl, refl)))

  -- Take distinct prepared requests of the transmit flow, at least one, none of them a put without a
  -- wait. Adding the send and the wait of each in turn to a queue, changing requests in any way,
  -- and posting the queue returns. It hands the stream one batch: the descriptors that the queue had
  -- and then, request by request, the send and the wait, all with what the requests hold at the
  -- post. Adding makes these requests pending and changes nothing else, and the queue is empty in
  -- the end whatever code the post returns.
  pub send_and_wait-Handed :
      (stream : ℕ) (p : Ptr) (ps : List Ptr) (change : (Ptr → Request) → Ptr → Request)
      (descs : List QueuedDesc) (s : State W)
      → Distinct (p ∷ ps)
      → All (λ q. Sendable s.reqs q) (p ∷ ps)
      → Returns
          (λ r t. Handed stream (p ∷ ps) change descs s r t)
          (send_and_wait stream (p ∷ ps) change (some descs) s)
  send_and_wait-Handed stream p ps change descs s distinct all =
      Returns-bind (add_pairs-Waited (p ∷ ps) descs s distinct all) λ dq t (e, w, same). rw e (
        subst
          (λ (u : State W).
            Returns (λ r v. Handed stream (p ∷ ps) change descs s r v)
              (mp_desc_queue_post_on_stream env stream (some (descs ++ queued (p ∷ ps)))
                (record u { reqs = change t.reqs })))
          (sym same) (posted-Handed stream p ps change descs s t.reqs w))
