-- ===== src/Returned.antt =====
-- What becomes of the new request of `mp_put_prepare` of src/mp_peersync.c when a step fails.
pub mod Sends
use libmp.Base.{
  ℕ, ◌<◌, ◌≡◌, refl, sym, subst, ◌≢◌, true, false, List, [], ◌∷◌, arith, ◌==◌, ltb, if◌then◌else◌,
  has_flag, Bool-cases, ◌⊎◌, inl, inr, none, some, Option-cases, length,
}
use libmp.Types.{Code, Sge, Ptr, null, Request, MpReqType, MpState, mp_put_nowait, tx_flow}
use libmp.Env.{Env}
use libmp.Machine.{State, set_req, pure, ◌>>=◌}
use libmp.Machine.Outcome.{Ensures, done, faults, Ensures-bind, Returns-Ensures}
use libmp.Machine.Heap.{Chain-update}
use libmp.Pool.FreeList.{FreeList, Taken, refilled}
use libmp.Pool.Release.{release_mp_request-FreeList}
use libmp.Pool.NewRequest.{new_stream_request-IsNew}
use libmp.Send.{
  Posted, Iovec, sge, attach_sgv, wait_unless_event_sync, mp_isendv, MpWindow, prepare_wait_cq,
}
use libmp.Stream.{
  out_put, new_put, prepare_send, prepare_both, new_send, mp_send_prepare, finish_put,
  mp_put_prepare,
}

module _ {W : Type 0} (env : Env W) (all : List Ptr) where
  open env use {config}

  -- the free list is `all` less its first request `p`
  abbrev pub Holds : Ptr → State W → Type 0
  Holds p s = (rest : List Ptr) × Taken all p rest s

  -- It is stored in `*req_t` and out of the pool, or nothing is stored and the pool is `all` again.
  abbrev pub Given : Posted → State W → Type 0
  Given r s =
      ((r.0 ≡ 0) × ((p : Ptr) × (r.1 ≡ some p) × Holds p s))
      ⊎ ((r.0 ≢ 0) × (r.1 ≡ none) × FreeList all s)

  -- a change of the taken request
  pub Holds-update : (p : Ptr) (r : Request) (s : State W) → Holds p s → Holds p (set_req p r s)
  Holds-update p r s (rest, taken) = (
    rest,
    record {
      order = taken.order;
      free = record {
        chain = Chain-update p r taken.free.chain taken.out;
        allocated = taken.free.allocated;
        positive = taken.free.positive;
      };
      ne_null = taken.ne_null;
      allocated = taken.allocated;
      out = taken.out;
    },
  )

  out_put-Given :
      (p : Ptr) (ret : Code) (s : State W)
      → Holds p s
      → Ensures (λ r t. Given r t) Unit (out_put env p ret s)
  unfolding out_put
  out_put-Given p ret s (rest, taken) = elim (Bool-cases (ret == 0)) [
    | inl e ↦ rw e (done (inl (refl, (p, refl, (rest, taken)))))
    | inr e ↦ rw e (
        Ensures-bind
          (Returns-Ensures (
            release_mp_request-FreeList s p rest taken.free taken.ne_null taken.allocated
              taken.out))
          (λ (f : Unit {0}). f)
          λ _ t (fl, _, _, _, _, _).
            done (inr (ground arith, refl, subst (λ xs. FreeList xs t) (sym taken.order) fl)))
  ]

  pub prepare_wait_cq-Holds :
      (client : ℕ) (p : Ptr) (s : State W)
      → Holds p s
      → Ensures (λ _ t. Holds p t) Unit (prepare_wait_cq env client tx_flow p s)
  unfolding prepare_wait_cq
  prepare_wait_cq-Holds client p s (rest, taken) =
      let e : (p == null) ≡ false = ground (arith, taken.ne_null) in
      rw e (done (Holds-update p _ s (rest, taken)))

  pub prepare_send-Holds :
      (client : ℕ) (p : Ptr) (s : State W)
      → Holds p s
      → Ensures (λ _ t. Holds p t) Unit (prepare_send env client p s)
  unfolding prepare_send
  prepare_send-Holds client p s (rest, taken) =
      let e : (p == null) ≡ false = ground (arith, taken.ne_null) in
      rw (e, e) (done (Holds-update p _ s (rest, taken)))

  -- behind `new_put`
  put_rest-Given :
      (client flags : ℕ) (p : Ptr) (s : State W)
      → Holds p s
      → Ensures (λ r t. Given r t) Unit (finish_put env client flags p s)
  unfolding finish_put
  put_rest-Given client flags p s holds =
      Ensures-bind (prepare_send-Holds client p s holds) (λ f. f)
        λ ret t holds'. elim (Bool-cases (ret == 0)) [
          | inr e ↦ rw e (out_put-Given p ret t holds')
          | inl e ↦ rw e (elim (Bool-cases (has_flag flags mp_put_nowait)) [
            | inl nowait ↦ rw nowait (done (inl (refl, (p, refl, holds'))))
            | inr wait ↦ rw wait (
                Ensures-bind (prepare_wait_cq-Holds client p t holds') (λ f. f)
                  λ code u holds''. out_put-Given p code u holds'')
          ])
        ]

module _ {W : Type 0} (env : Env W) where
  open env use {config}

  -- the free requests, after a refill if there were none
  abbrev pub available : List Ptr → State W → List Ptr
  available frees s = refilled config.mp_request_limit s.brk frees

  new_put-Holds :
      (i : ℕ) (state : MpState) (src size key displ : ℕ) (window : MpWindow) (flags : ℕ)
      (s : State W) (frees : List Ptr)
      → 0 < config.mp_request_limit
      → FreeList frees s
      → Ensures
          (λ p t. Holds env (available frees s) p t)
          Unit
          (new_put env i state src size key displ window flags s)
  unfolding new_put
  new_put-Holds i state src size key displ window flags s frees lim fl =
      elim (Bool-cases (ltb displ (window.rsize i))) [
        | inr e ↦ rw e (faults tt)
        | inl e ↦ rw e (
            Ensures-bind (new_stream_request-IsNew env i MpReqType.rdma state s frees lim fl)
              (λ _. tt)
              λ p t (rest, taken, _, _, _).
                let ne : (p == null) ≡ false = ground (arith, taken.ne_null) in
                rw ne (done (Holds-update env (available frees s) p _ t (rest, taken))))
      ]

  -- On a pool that is as it should be, without UD, mp_put_prepare returns or faults. If it returns
  -- 0 it stored a request that is out of the pool; if it returns another code it stored nothing,
  -- and the request that it took is back: the free list is what it was, after a refill if it was
  -- empty.
  pub mp_put_prepare-Given :
      (src size key peer displ : ℕ) (window : MpWindow) (flags : ℕ) (s : State W) (frees : List Ptr)
      → config.mp_enable_ud ≡ false
      → 0 < config.mp_request_limit
      → FreeList frees s
      → Ensures
          (λ r t. Given env (available frees s) r t)
          Unit
          (mp_put_prepare env src size key peer displ window flags s)
  unfolding mp_put_prepare
  mp_put_prepare-Given src size key peer displ window flags s frees verbs lim fl =
      simp verbs (elim (Option-cases (config.client_index peer)) [
        | inl e ↦ rw e (faults tt)
        | inr (i, e) ↦ simp e (
            Ensures-bind
              (new_put-Holds i MpState.prepared src size key displ window flags s frees lim fl)
              (λ f. f) λ p t holds. put_rest-Given env (available frees s) i flags p t holds)
      ])
