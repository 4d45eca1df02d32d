-- ===== src/Progress/Complete.antt =====
-- One polled completion: the body of the loop of `mp_progress_single_flow` in src/mp.c, with
-- `progress_request`.
use libmp.Base.{
  ℕ, ◌≡◌, refl, ◌∙◌, sym, subst, ◌≤◌, Bool, true, false, ◌||◌, ◌&&◌, none, arith, ◌==◌, ltb,
  if◌then◌else◌, update, update_self, Bool-cases, ◌⊎◌, inl, inr,
}
use libmp.Types.{
  null, Request, Client, MpState, undef, prepared, pending_nowait, pending, complete, n_states,
  MpFlow, at_flow, set_flow, is_pending, is_pending_nowait, Wc,
}
use libmp.Env.{Env}
use libmp.Machine.{State, exit_unless, ◌>>◌}
use libmp.Machine.Outcome.{Ensures, done, faults, Ensures-mono}
use libmp.Progress.{advance, progress_request, track_done, finish_entry, complete_entry}

abbrev pub in_flight : MpState → Bool
in_flight state = is_pending_nowait state || is_pending state

-- a request whose completion has been seen
abbrev pub completed : Request → Request
completed r = record r { status = MpState.complete; sgv = none }

-- the client once the completion of `r` has been seen
abbrev pub seen : {W : Type 0} → Env W → MpFlow → Request → Client → Client
seen env flow r c = record c {
  last_done_id = r.id;
  last_tracked_id =
      if env.config.use_event_sync && r.trigger
      then set_flow c.last_tracked_id flow r.id
      else c.last_tracked_id;
}

pub advance-in_flight :
    (state : MpState) (r : Request) → in_flight state ≡ true → advance state r ≡ completed r
advance-in_flight undef r e = ground arith
advance-in_flight prepared r e = ground arith
advance-in_flight pending_nowait r e = refl
advance-in_flight pending r e = refl
advance-in_flight complete r e = ground arith
advance-in_flight n_states r e = ground arith

-- what a completion does: nothing for one without a request, and else it completes the request
abbrev pub Seen : {W : Type 0} → Env W → ℕ → MpFlow → Wc → State W → State W → Type 0
Seen env client flow wc s t =
    ((wc.wr_id ≡ null) × (t ≡ s))
    ⊎ ((in_flight (s.reqs wc.wr_id).status ≡ true)
        × (t.reqs ≡ update s.reqs wc.wr_id (completed (s.reqs wc.wr_id)))
        × ((i : ℕ)
            → t.clients i
              ≡ update s.clients client (seen env flow (s.reqs wc.wr_id) (s.clients client)) i)
        × (t.brk ≡ s.brk)
        × (t.free_list ≡ s.free_list)
        × (t.mem_regions ≡ s.mem_regions))

-- why a completion is refused
abbrev pub Refused : {W : Type 0} → Env W → ℕ → MpFlow → Wc → State W → Type 0
Refused env client flow wc s =
    (wc.success ≡ false)
    ⊎ ((in_flight (s.reqs wc.wr_id).status ≡ false)
        ⊎ ((env.config.use_event_sync && (s.reqs wc.wr_id).trigger ≡ true)
            × ((s.reqs wc.wr_id).id ≤ at_flow (s.clients client).last_tracked_id flow)))

update-update :
    {A : Type 0} (f : ℕ → A) (i : ℕ) (a b : A) (j : ℕ)
    → update (update f i a) i b j ≡ update f i b j
unfolding update
update-update f i a b j = ground arith

module _ {W : Type 0} (env : Env W) where
  open env use {config}

  -- behind the tests: the ids of the client, and the request
  finish-Seen :
      (client : ℕ) (flow : MpFlow) (wc : Wc) (s : State W)
      → (wc.wr_id == null) ≡ false
      → in_flight (s.reqs wc.wr_id).status ≡ true
      → Ensures
          (λ _ t. Seen env client flow wc s t)
          (Refused env client flow wc s)
          (finish_entry env client flow wc.wr_id (s.reqs wc.wr_id) s)
  unfolding finish_entry track_done progress_request
  finish-Seen client flow wc s ne flying =
      let r = s.reqs wc.wr_id in
      elim (Bool-cases (config.use_event_sync && r.trigger)) [
        | inr plain ↦
            rw (plain, ne, advance-in_flight r.status r flying)
              (done (inr (flying, refl, λ i. refl, refl, refl, refl)))
        | inl waited ↦
            rw waited
              (elim (Bool-cases (ltb (at_flow (s.clients client).last_tracked_id flow) r.id)) [
                | inl more ↦
                    rw (more, ne, advance-in_flight r.status r flying)
                      (done (
                        inr (
                          flying,
                          refl,
                          λ i. simp update_self (
                              update-update s.clients client
                                (record (s.clients client) {
                                  last_tracked_id =
                                      set_flow (s.clients client).last_tracked_id flow r.id;
                                })
                                (record (s.clients client) {
                                  last_tracked_id =
                                      set_flow (s.clients client).last_tracked_id flow r.id;
                                  last_done_id = r.id;
                                })
                                i),
                          refl,
                          refl,
                          refl,
                        )))
                | inr stale ↦ rw stale (faults (inr (inr (refl, ground arith))))
              ])
      ]

  -- A completion without a request changes nothing. Else complete_entry makes the request
  -- complete, and records its id as the client's last done one and, under use_event_sync for a
  -- request that the stream waits for, as the last tracked one; nothing else changes. It faults
  -- only for a completion with an error, for a request that is not in flight, or for a tracked id
  -- that is not above the last one.
  pub complete_entry-Seen :
      (client : ℕ) (flow : MpFlow) (wc : Wc) (s : State W)
      → Ensures
          (λ _ t. Seen env client flow wc s t)
          (Refused env client flow wc s)
          (complete_entry env client flow wc s)
  unfolding complete_entry track_done progress_request
  complete_entry-Seen client flow wc s = elim (Bool-cases wc.success) [
    | inr bad ↦ rw bad (faults (inl refl))
    | inl good ↦ rw good (elim (Bool-cases (wc.wr_id == null)) [
      | inl e ↦ rw e (done (inl (ground arith, refl)))
      | inr e ↦
          rw (e, e)
            (elim (Bool-cases (in_flight (s.reqs wc.wr_id).status)) [
              | inr idle ↦ rw idle (faults (inr (inl refl)))
              | inl flying ↦
                  Ensures-mono
                    (subst
                      (λ b.
                        Ensures (λ _ t. Seen env client flow wc s t) (Refused env client flow wc s)
                          ((exit_unless b
                              >> finish_entry env client flow wc.wr_id (s.reqs wc.wr_id))
                            s))
                      (sym flying) (finish-Seen client flow wc s e flying))
                    (λ f. elim f [ inl bad ↦ inl (sym good ∙ bad) | inr why ↦ inr why ])
                    (λ _ _ p. p)
            ])
    ])
  ]
