-- ===== src/Ipc/Blocked.antt =====
-- The assertion of `progress_ipc` in src/mp.c on the request that it found.
use libmp.Base.{
  ℕ, ◌≡◌, refl, ◌≢◌, true, false, some, Option-cases, arith, ◌==◌, Bool-cases, inl, inr,
}
use libmp.Types.{Ptr, null, is_pending, is_pending_nowait}
use libmp.Env.{Env}
use libmp.Machine.{State, Fault, fault}
use libmp.Machine.Outcome.{Ensures, done, faults}
use libmp.Ipc.Receive.{progress_ipc_client, progress_ipc}
use libmp.Progress.Engine.{for_clients-Ensures}

module _ {W : Type 0} (env : Env W) where
  open env use {config}

  client-idle :
      (peer : ℕ) (s t : State W)
      → t ≡ s
      → Ensures (λ ret u. (ret ≡ 0) × (u ≡ s)) Unit (progress_ipc_client env peer t)
  unfolding progress_ipc_client
  client-idle peer s t same = elim (Option-cases (config.client_index peer)) [
    | inl e ↦ rw e (faults tt)
    | inr (i, e) ↦
        let c = t.clients i in
        let slot = c.smp.local_buffer c.smp.local_tail_process in
        let p : Ptr = c.posted_ipc_rreq in
        rw e (elim (Bool-cases slot.busy) [
          | inr calm ↦ rw calm (done (refl, same))
          | inl busy ↦ rw busy (elim (Bool-cases slot.free) [
            | inl free ↦ rw free (faults tt)
            | inr taken ↦ rw taken (elim (Bool-cases (p == null)) [
              | inl none_posted ↦ rw none_posted (done (refl, same))
              | inr posted ↦
                  rw (posted, posted)
                    (elim (Bool-cases (is_pending (t.reqs p).status)) [
                      | inl pend ↦ rw pend (faults tt)
                      | inr other ↦
                          rw other (elim (Bool-cases (is_pending_nowait (t.reqs p).status)) [
                            | inl nowait ↦ rw nowait (done (refl, same))
                            | inr bad ↦ rw bad (faults tt)
                          ])
                    ])
            ])
          ])
        ])
  ]

  -- If progress_ipc returns, it returns 0 and has changed nothing, whatever messages the peers have
  -- put into their slots and whatever receives are posted; else it faults.
  pub progress_ipc-idle :
      (s : State W) → Ensures (λ ret t. (ret ≡ 0) × (t ≡ s)) Unit (progress_ipc env s)
  unfolding progress_ipc
  progress_ipc-idle s =
      for_clients-Ensures (λ t. t ≡ s) (λ ret. ret ≡ 0) (progress_ipc_client env) refl
        (λ peer t same. client-idle peer s t same) config.client_count 0 s refl

  -- For a rank with a client whose next slot holds a message and whose first posted receive is
  -- waited for, the body of progress_ipc's loop fails an assertion.
  progress_ipc_client-aborts :
      (peer i : ℕ) (s : State W)
      → config.client_index peer ≡ some i
      → ((s.clients i).smp.local_buffer (s.clients i).smp.local_tail_process).busy ≡ true
      → (s.clients i).posted_ipc_rreq ≢ null
      → is_pending (s.reqs (s.clients i).posted_ipc_rreq).status ≡ true
      → progress_ipc_client env peer s ≡ fault Fault.assertion
  unfolding progress_ipc_client
  progress_ipc_client-aborts peer i s e busy ne pend =
      let c = s.clients i in
      let posted : (c.posted_ipc_rreq == null) ≡ false = ground arith in
      rw (e, busy)
        (elim (Bool-cases (c.smp.local_buffer c.smp.local_tail_process).free) [
          | inl free ↦ rw free refl
          | inr taken ↦ rw (taken, posted, posted, pend) refl
        ])
