-- ===== src/Comm/Collected.antt =====
-- The descriptors of waits that src/comm_library/comm.cpp collects, in the order of the requests.
use libmp.Base.{
  ℕ, ◌+◌, ◌%◌, ◌≡◌, ◌≢◌, ◌<◌, ◌≤◌, ◌∙◌, ap, sym, subst, true, List, ◌++◌, arith, length, ◌∈◌, ◌∉◌,
  Distinct, update_self, update_ne,
}
use libmp.Types.{Code, Ptr}
use libmp.Env.{Env}
use libmp.Machine.{State, M, pure, ◌>>=◌}
use libmp.Machine.Outcome.{Returns, returns, Returns-bind}
use libmp.Machine.Commands.{assert-passes}
use libmp.Device.{WaitDesc, Mlx5}
use libmp.Comm.Tables.{Comm, Memory, DevDescs, no_descs}
use libmp.Comm.Descs.{
  n_dreqs, dreqs, max_n_descs, add_waits, comm_prepare_wait_all, comm_prepared_requests,
}
use libmp.Comm.Gather.{Describes, AllCanWait, descs_of, handed, Collected, add_waits-Collected}

next_ne : (i : ℕ) → i < n_dreqs → i ≢ ((i + 1) % n_dreqs)
next_ne i lt = ground arith

module _ {W : Type 0} where
  -- the slot that the kernel gets, and the globals after it
  abbrev pub Handed :
      (ℕ → WaitDesc) → Comm → State W → List Ptr → DevDescs → Comm → State W → Type 0
  Handed desc c s reqs slot e t = record {
    waits : slot.wait ≡ (dreqs c).wait ++ descs_of desc s.reqs reqs;
    rest : (slot.ready ≡ (dreqs c).ready) × (slot.tx ≡ (dreqs c).tx);
    next : e.dreq_idx ≡ (c.dreq_idx + 1) % n_dreqs;
    clean : dreqs e ≡ no_descs;
    kept : e.dreqs c.dreq_idx ≡ slot;
    handed : (p : Ptr) → p ∈ reqs → t.reqs p ≡ handed (s.reqs p);
    others : (p : Ptr) → p ∉ reqs → t.reqs p ≡ s.reqs p;
  }

  prepared-Handed :
      (desc : ℕ → WaitDesc) (c d : Comm) (s t : State W) (reqs : List Ptr)
      → c.dreq_idx < n_dreqs
      → Collected desc c s reqs d t
      → Handed desc c s reqs (comm_prepared_requests d).0 (comm_prepared_requests d).1 t
  unfolding comm_prepared_requests
  prepared-Handed desc c d s t reqs lt k = record {
    waits = k.waits;
    rest = (k.ready, k.tx);
    next = ap (λ i. (i + 1) % n_dreqs) k.place;
    clean = update_self d.dreqs ((d.dreq_idx + 1) % n_dreqs) no_descs;
    kept =
        update_ne d.dreqs ((d.dreq_idx + 1) % n_dreqs) c.dreq_idx no_descs
          (subst (λ i. c.dreq_idx ≢ ((i + 1) % n_dreqs)) (sym k.place) (next_ne c.dreq_idx lt))
        ∙ ap (λ i. d.dreqs i) (sym k.place);
    handed = k.handed;
    others = k.others;
  }

module _ {W : Type 0} (env : Env W) (mlx5 : Mlx5 W) (memory : Memory W) where
  -- what a kernel gets, and the globals behind it
  abbrev pub collect_for_kernel : List Ptr → Comm → M W (Code × (DevDescs × Comm))
  collect_for_kernel reqs c = do
    (code, d) ← comm_prepare_wait_all env mlx5 memory reqs c
    pure (code, comm_prepared_requests d)

  -- If GDSync describes every wait, then for distinct requests whose waits can be handed to a kernel,
  -- as many as there is room for among the 32 of the slot, comm_prepare_wait_all and
  -- comm_prepared_requests return 0 and the slot with one more descriptor for each request, in
  -- order, behind those that it had; the requests are pending, all others are as they were, and the
  -- next slot is empty, while the one returned keeps its descriptors.
  pub collect_for_kernel-Handed :
      (desc : ℕ → WaitDesc) (reqs : List Ptr) (c : Comm) (s : State W)
      → Describes mlx5 desc
      → c.comm_initialized ≡ true
      → c.dreq_idx < n_dreqs
      → Distinct reqs
      → AllCanWait c s reqs
      → length (dreqs c).wait + length reqs ≤ max_n_descs
      → Returns
          (λ r t. (r.0 ≡ 0) × Handed desc c s reqs r.1.0 r.1.1 t)
          (collect_for_kernel reqs c s)
  unfolding comm_prepare_wait_all
  collect_for_kernel-Handed desc reqs c s describes ready lt distinct all room =
      Returns-bind
        (assert-passes c.comm_initialized (λ _. add_waits env mlx5 memory reqs c) s ready
          (add_waits-Collected env mlx5 memory desc reqs c s describes distinct all room))
        λ r t (e, k). returns (e, prepared-Handed desc c r.1 s t reqs lt k)
