-- ===== src/Comm/Gather.antt =====
-- The loop of `comm_prepare_wait_all` in src/comm_library/comm.cpp.
use libmp.Base.{
  ℕ, ◌+◌, ◌≡◌, ◌≢◌, ◌<◌, ◌≤◌, refl, ◌∙◌, ap, sym, subst, true, false, ◌||◌, some, List, [], ◌∷◌,
  ◌++◌, arith, ◌==◌, ltb, length, map, ◌∈◌, ◌∉◌, Distinct, update, update_self, update_ne,
  length-append, Bool-cases, inl, inr,
}
use mathlib.Core.List.{append-nil, append_assoc}
use libmp.Types.{Ptr, null, Request, MpState, is_pending_nowait, is_complete}
use libmp.Env.{Env}
use libmp.Machine.{State, ok, set_req}
use libmp.Machine.Outcome.{Returns, returns, Returns-mono}
use libmp.Device.{WaitDesc, Mlx5, wait_descriptors}
use libmp.Comm.Tables.{Comm, Memory, DevDescs}
use libmp.Comm.Descs.{dreqs, with_dreqs, max_n_descs, add_wait, add_waits}

-- GDSync describes the wait of a request by `desc`, and fails for none.
abbrev pub Describes : {W : Type 0} → Mlx5 W → (ℕ → WaitDesc) → Type 0
Describes {W} mlx5 desc =
    (info : ℕ) (w : W) → mlx5.gds_mlx5_get_wait_info info w ≡ ((0, desc info), w)

-- a request with a client, of which the wait can be handed to a kernel
abbrev pub CanWait : Comm → Request → Type 0
CanWait c r =
    ((i : ℕ) × (c.config.client_index r.peer ≡ some i))
    × ((is_pending_nowait r.status || is_complete r.status) ≡ true)

-- the slot with one more wait, and the request behind it
abbrev pub with_wait : WaitDesc → Comm → Comm
with_wait desc c = with_dreqs (record (dreqs c) { wait = (dreqs c).wait ++ desc ∷ [] }) c

abbrev pub handed : Request → Request
handed r = record r { stream = 0; status = MpState.pending }

-- the descriptors of the waits of `reqs`
abbrev pub descs_of : (ℕ → WaitDesc) → (Ptr → Request) → List Ptr → List WaitDesc
descs_of desc heap reqs = map (λ p. desc (heap p).gds_wait_info) reqs

descs_of-others :
    (desc : ℕ → WaitDesc) (p : Ptr) (r : Request) (heap : Ptr → Request) (reqs : List Ptr)
    → p ∉ reqs
    → descs_of desc (update heap p r) reqs ≡ descs_of desc heap reqs
descs_of-others desc p r heap [] out = refl
descs_of-others desc p r heap (q ∷ reqs) out =
    rw (update_ne heap p q r (ground arith), descs_of-others desc p r heap reqs (ground arith)) refl

module _ {W : Type 0} where
  abbrev pub AllCanWait : Comm → State W → List Ptr → Type 0
  AllCanWait c s [] = Unit
  AllCanWait c s (p ∷ reqs) = (p ≢ null) × CanWait c (s.reqs p) × AllCanWait c s reqs

  CanWait-others :
      (p : Ptr) (r : Request) (desc : WaitDesc) (c : Comm) (s : State W) (reqs : List Ptr)
      → p ∉ reqs
      → AllCanWait c s reqs
      → AllCanWait (with_wait desc c) (set_req p r s) reqs
  CanWait-others p r desc c s [] out all = tt
  CanWait-others p r desc c s (q ∷ reqs) out (live, can, all) = (
    live,
    subst (λ r'. CanWait c r') (sym (update_ne s.reqs p q r (ground arith))) can,
    CanWait-others p r desc c s reqs (ground arith) all,
  )

  -- What the loop leaves: the waits of `reqs` behind those of the slot, in order, and no other
  -- request changed.
  abbrev pub Collected : (ℕ → WaitDesc) → Comm → State W → List Ptr → Comm → State W → Type 0
  Collected desc c s reqs d t = record {
    waits : (dreqs d).wait ≡ (dreqs c).wait ++ descs_of desc s.reqs reqs;
    ready : (dreqs d).ready ≡ (dreqs c).ready;
    tx : (dreqs d).tx ≡ (dreqs c).tx;
    place : d.dreq_idx ≡ c.dreq_idx;
    initialized : d.comm_initialized ≡ c.comm_initialized;
    handed : (p : Ptr) → p ∈ reqs → t.reqs p ≡ handed (s.reqs p);
    others : (p : Ptr) → p ∉ reqs → t.reqs p ≡ s.reqs p;
  }

  Collected-step :
      (desc : ℕ → WaitDesc) (p : Ptr) (reqs : List Ptr) (c d : Comm) (s t : State W)
      → p ∉ reqs
      → Collected desc
          (with_wait (desc (s.reqs p).gds_wait_info) c)
          (set_req p (handed (s.reqs p)) s)
          reqs
          d
          t
      → Collected desc c s (p ∷ reqs) d t
  Collected-step desc p reqs c d s t out k =
      let r : Request = handed (s.reqs p) in
      let one : List WaitDesc = desc (s.reqs p).gds_wait_info ∷ [] in
      let slot : DevDescs = record (dreqs c) { wait = (dreqs c).wait ++ one } in
      let same : dreqs (with_dreqs slot c) ≡ slot = update_self c.dreqs c.dreq_idx slot in
      record {
        waits =
            k.waits
            ∙ ap (λ (d : DevDescs). d.wait ++ descs_of desc (update s.reqs p r) reqs) same
            ∙ ap (λ ds. ((dreqs c).wait ++ one) ++ ds) (descs_of-others desc p r s.reqs reqs out)
            ∙ append_assoc (dreqs c).wait one (descs_of desc s.reqs reqs);
        ready = k.ready ∙ ap (λ (d : DevDescs). d.ready) same;
        tx = k.tx ∙ ap (λ (d : DevDescs). d.tx) same;
        place = k.place;
        initialized = k.initialized;
        handed = λ q e. elim (Bool-cases (q == p)) [
          | inl is ↦
              let eq : q ≡ p = ground arith in
              subst (λ a. t.reqs a ≡ handed (s.reqs a)) (sym eq)
                (k.others p out ∙ update_self s.reqs p r)
          | inr other ↦
              k.handed q (ground arith) ∙ ap handed (update_ne s.reqs p q r (ground arith))
        ];
        others = λ q e. k.others q (ground arith) ∙ update_ne s.reqs p q r (ground arith);
      }

module _ {W : Type 0} (env : Env W) (mlx5 : Mlx5 W) (memory : Memory W) where
  add_wait_lem :
      (desc : ℕ → WaitDesc) (p : Ptr) (c : Comm) (s : State W)
      → Describes mlx5 desc
      → p ≢ null
      → CanWait c (s.reqs p)
      → length (dreqs c).wait < max_n_descs
      → add_wait env mlx5 memory p c s
        ≡ ok (0, with_wait (desc (s.reqs p).gds_wait_info) c) (set_req p (handed (s.reqs p)) s)
  unfolding add_wait wait_descriptors
  add_wait_lem desc p c s describes live ((i, index), status) room =
      let l : ltb (length (dreqs c).wait) max_n_descs ≡ true = ground arith in
      let n : (p == null) ≡ false = ground arith in simp (l, n, index, status, describes) refl

  pub add_waits-Collected :
      (desc : ℕ → WaitDesc) (reqs : List Ptr) (c : Comm) (s : State W)
      → Describes mlx5 desc
      → Distinct reqs
      → AllCanWait c s reqs
      → length (dreqs c).wait + length reqs ≤ max_n_descs
      → Returns
          (λ r t. (r.0 ≡ 0) × Collected desc c s reqs r.1 t)
          (add_waits env mlx5 memory reqs c s)
  unfolding add_waits
  add_waits-Collected desc [] c s describes distinct all room = returns (
    refl,
    record {
      waits = sym (append-nil (dreqs c).wait);
      ready = refl;
      tx = refl;
      place = refl;
      initialized = refl;
      handed = λ p e. absurd (ground arith);
      others = λ p e. refl;
    },
  )
  add_waits-Collected desc (p ∷ reqs) c s describes (out, distinct) (live, can, all) room =
      let slot : List WaitDesc = (dreqs c).wait in
      let one : WaitDesc = desc (s.reqs p).gds_wait_info in
      let c' : Comm = with_wait one c in
      rw (add_wait_lem desc p c s describes live can (omega arith)) (
        Returns-mono
          (add_waits-Collected desc reqs c' (set_req p (handed (s.reqs p)) s) describes distinct
            (CanWait-others p (handed (s.reqs p)) one c s reqs out all)
            (subst (λ (d : DevDescs). length d.wait + length reqs ≤ max_n_descs)
              (sym (update_self c.dreqs c.dreq_idx (record (dreqs c) { wait = slot ++ one ∷ [] })))
              (subst (λ n. n + length reqs ≤ max_n_descs) (sym (length-append slot (one ∷ [])))
                (omega arith))))
          λ r t (e, k). (e, Collected-step desc p reqs c r.1 s t out k))
