-- ===== src/Windows/Puts.antt =====
-- The work request of a put: `mp_iput` of src/mp.c.
use libmp.Base.{
  ℕ, ◌+◌, ◌%◌, ◌^◌, ◌<◌, ◌≡◌, ◌≢◌, refl, ◌∙◌, ap, false, List, [], ◌∷◌, arith, ◌==◌, ltb, has_flag,
  update, update_self, update-related, Bool-cases, ◌⊎◌, inl, inr, none, some,
}
use libmp.Types.{
  Ptr, null, Request, Client, MpReqType, MpState, tx_flow, at_flow, mp_put_nowait, rdma_at,
  rdma_write, SendWr,
}
use libmp.Env.{Env}
use libmp.Machine.{State}
use libmp.Machine.Outcome.{Ensures, done, faults, Ensures-bind, Ensures-mono}
use libmp.Pool.FreeList.{FreeList}
use libmp.Pool.NewRequest.{new_stream_request-IsNew, next_id}
use libmp.Progress.Engine.{NoWaited, Evolves, same, finishes}
use libmp.Post.Retry.{post-Progressed}
use libmp.Send.{Posted, MpWindow, sge, put_flags, prepare_wait_cq, finish_iput, mp_iput}

-- A code that is not 0 and nothing stored in `*req_t`, or 0 and a request with the work request `wr`.
abbrev pub Stored : {W : Type 0} → (wr : Ptr → SendWr) → Posted → State W → Type 0
Stored wr r t =
    ((r.0 ≢ 0) × (r.1 ≡ none)) ⊎ ((r.0 ≡ 0) × ((p : Ptr) × (r.1 ≡ some p) × ((t.reqs p).sr ≡ wr p)))

-- a put from `src` to `displ` in the window of client `i`
abbrev pub put_wr : MpWindow → (i src size key displ flags : ℕ) → Ptr → SendWr
put_wr window i src size key displ flags p = record {
  exp_send_flags = put_flags flags;
  exp_opcode = rdma_write;
  wr_id = p;
  sg_list = sge src size key ∷ [];
  target = rdma_at ((window.base_ptr i + displ) % 2 ^ 64) (window.rkey i);
}

Evolves-sr : {q r : Request} → Evolves q r → r.sr ≡ q.sr
Evolves-sr same = refl
Evolves-sr (finishes e) = refl

NoWaited-next :
    {W : Type 0} (s t : State W) (i : ℕ)
    → NoWaited s
    → t.clients ≡ update s.clients i (next_id (s.clients i))
    → NoWaited t
NoWaited-next s t i none_waited e j flow =
    ap (λ (f : ℕ → Client). at_flow (f j).waited_stream_req flow) e
    ∙ update-related
        (λ (c d : Client). at_flow d.waited_stream_req flow ≡ at_flow c.waited_stream_req flow)
        (λ c. refl) s.clients i _ refl j
    ∙ none_waited j flow

module _ {W : Type 0} (env : Env W) (window : MpWindow) (i : ℕ) where
  open env use {config}

  -- behind the post
  put_end :
      (wr : Ptr → SendWr) (flags ret : ℕ) (p : Ptr) (t : State W)
      → (p == null) ≡ false
      → (t.reqs p).sr ≡ wr p
      → Ensures (λ r u. Stored wr r u) Unit (finish_iput env i flags p ret t)
  unfolding finish_iput prepare_wait_cq
  put_end wr flags ret p t ne wrote = elim (Bool-cases (ret == 0)) [
    | inr e ↦ rw e (done (inl (ground arith, refl)))
    | inl e ↦ rw e (elim (Bool-cases (has_flag flags mp_put_nowait)) [
      | inl nowait ↦ rw nowait (done (inr (refl, (p, refl, wrote))))
      | inr wait ↦
          rw (wait, ne)
            (elim (Bool-cases ((env.gds_prepare_wait_cq i tx_flow t.world).0.0 == 0)) [
              | inr bad ↦ rw bad (done (inl (ground arith, refl)))
              | inl good ↦ rw good (done (inr (ground arith, (p, refl, simp update_self wrote))))
            ])
    ])
  ]

  pub mp_iput-Stored :
      (src size key peer displ flags : ℕ) (s : State W) (frees : List Ptr)
      → config.client_index peer ≡ some i
      → config.use_event_sync ≡ false
      → NoWaited s
      → 0 < config.mp_request_limit
      → FreeList frees s
      → config.mp_enable_ud ≡ false
      → Ensures
          (λ r t. Stored (put_wr window i src size key displ flags) r t × (displ < window.rsize i))
          Unit
          (mp_iput env src size key peer displ window flags s)
  unfolding mp_iput
  mp_iput-Stored src size key peer displ flags s frees at no_events none_waited lim fl verbs =
      simp (verbs, at)
        (elim (Bool-cases (ltb displ (window.rsize i))) [
          | inr e ↦ rw e (faults tt)
          | inl e ↦ rw e (
              Ensures-bind
                (new_stream_request-IsNew env i MpReqType.rdma MpState.pending_nowait s frees lim
                  fl)
                (λ _. tt)
                λ p t (rest, taken, _, clients, _).
                  let ne : (p == null) ≡ false = ground (arith, taken.ne_null) in
                  rw ne (
                    Ensures-bind
                      (post-Progressed env no_events _ (NoWaited-next s t i none_waited clients)
                        (omega (arith, taken.allocated)) i p).0
                      (λ f. f)
                      λ ret u q.
                        Ensures-mono
                          (put_end (put_wr window i src size key displ flags) flags ret p u ne (
                            Evolves-sr (q.reqs p)
                            ∙ ap (λ (r : Request). r.sr) (update_self t.reqs p _)))
                          (λ f. f) λ r v stored. (stored, ground arith)))
        ])
