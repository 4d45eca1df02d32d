-- ===== src/Comm/Stale.antt =====
-- A request that `comm_wait` of src/comm_library/comm.cpp gave back, in the list of `comm_flush`.
use libmp.Base.{
  ℕ, suc, ◌<◌, ◌≡◌, ◌≢◌, refl, Bool, true, false, ◌&&◌, some, List, [], ◌∷◌, ◌++◌, arith, ◌==◌, ltb,
  length, All, ◌∉◌,
}
use libmp.Types.{Ptr, null, Request, MpReqType, is_live_type, req_valid}
use libmp.Env.{Env}
use libmp.Machine.{State, Out, Fault, fault, M, ◌>>=◌, and_then}
use libmp.Machine.Commands.{assert-passes}
use libmp.Machine.Outcome.{Returns, returns, Returns-bind}
use libmp.Pool.FreeList.{FreeList}
use libmp.Pool.Release.{release_mp_request-FreeList}
use libmp.Wait.{prepare_wait, for_reqs, release_each, mp_wait_all, mp_wait}
use libmp.Wait.Ready.{Ready, prepare_wait-Ready, for_reqs-Ready, wait_each-Ready}
use libmp.Comm.Tables.{Comm, env_at, max_reqs}
use libmp.Comm.Messages.{comm_wait, comm_flush}

and_false : (b : Bool) → (b && false) ≡ false
and_false true = refl
and_false false = refl

nonempty :
    (before : List Ptr) (p : Ptr) (after : List Ptr) → (length (before ++ p ∷ after) == 0) ≡ false
nonempty [] p after = ground arith
nonempty (q ∷ before) p after = ground arith

invalid :
    (r : Request) → r.type ≡ MpReqType.none_type → (req_valid r && is_live_type r.type) ≡ false
invalid r e = rw e (and_false (req_valid (record r { type = MpReqType.none_type })))

module _ {W : Type 0} (env : Env W) where
  open env use {config}

  -- `p` back in the pool, and all others as they were
  abbrev GivenBack : Ptr → (s t : State W) → Type 0
  GivenBack p s t =
      ((t.reqs p).type ≡ MpReqType.none_type) × ((a : Ptr) → a ≢ p → t.reqs a ≡ s.reqs a)

  mp_wait-GivenBack :
      (fuel t0 p : ℕ) (frees : List Ptr) (s : State W)
      → (env.get_cycles s.world).0 ≡ some t0
      → FreeList frees s
      → p ≢ null
      → p < s.brk
      → p ∉ frees
      → Ready s.reqs p
      → Returns (λ code t. (code ≡ 0) × GivenBack p s t) (mp_wait env (suc fuel) p s)
  unfolding mp_wait mp_wait_all release_each for_reqs
  mp_wait-GivenBack fuel t0 p frees s clock fl ne lt out ready =
      let u : State W = record s { world = (env.get_cycles s.world).1 } in
      let e : (p == null) ≡ false = ground arith in
      rw
        (
          clock,
          prepare_wait-Ready env u p ready,
          wait_each-Ready env fuel t0 u (p ∷ []) (ready, tt),
          e,
          ready.1,
        )
        (Returns-bind (release_mp_request-FreeList u p frees fl ne lt out)
          λ _ t (_, gone, _, others, _, _). returns (refl, (gone, others)))

  refused :
      (s : State W) (p : Ptr) (rest : List Ptr)
      → config.mp_enable_ipc ≡ false
      → p ≢ null
      → (s.reqs p).type ≡ MpReqType.none_type
      → for_reqs env (prepare_wait env) (p ∷ rest) s ≡ fault Fault.assertion
  unfolding for_reqs prepare_wait
  refused s p rest verbs ne gone =
      let e : (p == null) ≡ false = ground arith in rw (e, verbs, invalid (s.reqs p) gone) refl

  mp_wait_all-refused :
      (fuel t0 p : ℕ) (before after : List Ptr) (s : State W)
      → (env.get_cycles s.world).0 ≡ some t0
      → config.mp_enable_ipc ≡ false
      → All (Ready s.reqs) before
      → p ≢ null
      → (s.reqs p).type ≡ MpReqType.none_type
      → mp_wait_all env fuel (before ++ p ∷ after) s ≡ fault Fault.assertion
  unfolding mp_wait_all
  mp_wait_all-refused fuel t0 p before after s clock verbs ready ne gone =
      let u : State W = record s { world = (env.get_cycles s.world).1 } in
      rw (clock, for_reqs-Ready env u before (p ∷ after) ready, refused u p after verbs ne gone)
        refl

  Ready-others :
      (p : Ptr) (s t : State W) (reqs : List Ptr)
      → p ∉ reqs
      → ((a : Ptr) → a ≢ p → t.reqs a ≡ s.reqs a)
      → All (Ready s.reqs) reqs
      → All (Ready t.reqs) reqs
  Ready-others p s t [] out others ready = tt
  Ready-others p s t (q ∷ reqs) out others (((ne, valid, can), full), ready) =
      let same : t.reqs q ≡ s.reqs q = others q (ground arith) in
      (
        ((ne, rw same valid, rw same can), rw same full),
        Ready-others p s t reqs (ground arith) others ready,
      )

Returns-then :
    {W A B : Type 0} {P : A → State W → Type 0} {r : Out W A} {k : A → M W B} {o : Out W B}
    → Returns P r
    → ((a : A) (s : State W) → P a s → k a s ≡ o)
    → and_then r k ≡ o
Returns-then (returns p) next = next _ _ p

module _ {W : Type 0} (env : Env W) where
  -- The clock works.
  abbrev pub Works : Type 0
  Works = (w : W) → (t0 : ℕ) × ((env.get_cycles w).0 ≡ some t0)

  comm_wait-GivenBack :
      (fuel p : ℕ) (frees : List Ptr) (c : Comm) (s : State W)
      → Works
      → c.comm_initialized ≡ true
      → FreeList frees s
      → p ≢ null
      → p < s.brk
      → p ∉ frees
      → Ready s.reqs p
      → Returns (λ _ t. GivenBack (env_at env c) p s t) (comm_wait env (suc fuel) p c s)
  unfolding comm_wait
  comm_wait-GivenBack fuel p frees c s clock started fl ne lt free full =
      let (t0, now) = clock s.world in
      assert-passes c.comm_initialized _ s started (
        Returns-bind (mp_wait-GivenBack (env_at env c) fuel t0 p frees s now fl ne lt free full)
          λ ret t (e, back). rw e (returns back))

  comm_flush-refused :
      (fuel p : ℕ) (before after : List Ptr) (c : Comm) (s : State W)
      → Works
      → c.config.mp_enable_ipc ≡ false
      → c.reqs ≡ before ++ p ∷ after
      → length c.reqs < max_reqs
      → All (Ready s.reqs) before
      → p ≢ null
      → (s.reqs p).type ≡ MpReqType.none_type
      → comm_flush env fuel c s ≡ fault Fault.assertion
  unfolding comm_flush
  comm_flush-refused fuel p before after c s clock verbs tracked few ready ne gone =
      let (t0, now) = clock s.world in
      let some_left : (length c.reqs == 0) ≡ false = rw tracked (nonempty before p after) in
      let room : ltb (length c.reqs) max_reqs ≡ true = ground arith in
      let stop : mp_wait_all (env_at env c) fuel c.reqs s ≡ fault Fault.assertion =
        rw tracked
          (mp_wait_all-refused (env_at env c) fuel t0 p before after s now verbs ready ne gone) in
      simp (some_left, room, stop) refl

  -- Outside the IPC mode, with a clock that works: a tracked request that is complete and that
  -- comm_wait waited for makes comm_flush fail an assertion, where all that was tracked before it is
  -- complete; the wait gave the request back to the pool, but it is still tracked.
  pub comm_flush-comm_wait :
      (fuel again p : ℕ) (before after frees : List Ptr) (c : Comm) (s : State W)
      → Works
      → c.comm_initialized ≡ true
      → c.config.mp_enable_ipc ≡ false
      → c.reqs ≡ before ++ p ∷ after
      → length c.reqs < max_reqs
      → p ∉ before
      → All (Ready s.reqs) before
      → Ready s.reqs p
      → FreeList frees s
      → p < s.brk
      → p ∉ frees
      → (comm_wait env (suc fuel) p c >>= λ handle. comm_flush env again c) s
        ≡ fault Fault.assertion
  comm_flush-comm_wait fuel again p before after frees c s clock started verbs tracked few out ready
        full fl lt free =
      Returns-then (comm_wait-GivenBack fuel p frees c s clock started fl full.0.0 lt free full)
        λ _ t (gone, others).
          comm_flush-refused again p before after c t clock verbs tracked few
            (Ready-others (env_at env c) p s t before out others ready) full.0.0 gone
