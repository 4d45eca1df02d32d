-- ===== src/Returned/Sends.antt =====
-- What becomes of the new request of `mp_send_prepare` of src/mp_peersync.c, and of `mp_isendv` of
-- src/mp.c, when a step fails.
use libmp.Base.{
  ℕ, ◌<◌, ◌≡◌, refl, ◌≢◌, true, false, List, [], ◌∷◌, arith, ◌==◌, ltb, if◌then◌else◌, Bool-cases,
  ◌⊎◌, inl, inr, none, some, Option-cases, length,
}
use libmp.Types.{Code, Sge, Ptr, null, MpReqType, MpState}
use libmp.Env.{Env}
use libmp.Machine.{State, pure, ◌>>=◌}
use libmp.Machine.Outcome.{Ensures, done, faults, Ensures-bind}
use libmp.Pool.FreeList.{FreeList}
use libmp.Pool.NewRequest.{new_stream_request-IsNew}
use libmp.Send.{Posted, Iovec, sge, attach_sgv, wait_unless_event_sync, mp_isendv, prepare_wait_cq}
use libmp.Stream.{prepare_both, new_send, mp_send_prepare}
use libmp.Returned.{Holds, Holds-update, prepare_send-Holds, prepare_wait_cq-Holds, available}

module _ {W : Type 0} (env : Env W) (all : List Ptr) where
  -- the result of a preparation that gives nothing back
  abbrev pub Kept : Posted → State W → Type 0
  Kept r s =
      (p : Ptr) × Holds env all p s × (((r.0 ≡ 0) × (r.1 ≡ some p)) ⊎ ((r.0 ≢ 0) × (r.1 ≡ none)))

  prepare_both-Kept :
      (client : ℕ) (p : Ptr) (s : State W)
      → Holds env all p s
      → Ensures (λ r t. Kept r t) Unit (prepare_both env client p s)
  unfolding prepare_both
  prepare_both-Kept client p s holds =
      Ensures-bind (prepare_send-Holds env all client p s holds) (λ f. f)
        λ ret t holds'. elim (Bool-cases (ret == 0)) [
          | inr e ↦ rw e (done (p, holds', inr (ground arith, refl)))
          | inl e ↦ rw e (
              Ensures-bind (prepare_wait_cq-Holds env all client p t holds') (λ f. f)
                λ code u holds''. elim (Bool-cases (code == 0)) [
                  | inl e' ↦ rw e' (done (p, holds'', inl (ground arith, refl)))
                  | inr e' ↦ rw e' (done (p, holds'', inr (ground arith, refl)))
                ])
        ]

module _ {W : Type 0} (env : Env W) where
  open env use {config}

  new_send-Holds :
      (i : ℕ) (state : MpState) (entries : List Sge) (s : State W) (frees : List Ptr)
      → 0 < config.mp_request_limit
      → FreeList frees s
      → Ensures (λ p t. Holds env (available env frees s) p t) Unit (new_send env i state entries s)
  unfolding new_send
  new_send-Holds i state entries s frees lim fl =
      Ensures-bind (new_stream_request-IsNew env i MpReqType.send state s frees lim fl) (λ _. tt)
        λ p t (rest, taken, _, _, _).
          let ne : (p == null) ≡ false = ground (arith, taken.ne_null) in
          rw ne (done (Holds-update env (available env frees s) p _ t (rest, taken)))

  -- On a pool that is as it should be, outside the event-synchronous mode, mp_send_prepare returns
  -- or faults. A request is out of the pool after it whatever code it returns; with a code that is
  -- not 0 nothing is stored in `*req_t`, so the caller cannot release it.
  pub mp_send_prepare-Kept :
      (buf size peer key : ℕ) (s : State W) (frees : List Ptr)
      → config.use_event_sync ≡ false
      → 0 < config.mp_request_limit
      → FreeList frees s
      → Ensures
          (λ r t. Kept env (available env frees s) r t)
          Unit
          (mp_send_prepare env buf size peer key s)
  unfolding mp_send_prepare
  mp_send_prepare-Kept buf size peer key s frees no_events lim fl =
      elim (Option-cases (config.client_index peer)) [
        | inl e ↦ simp e (faults tt)
        | inr (i, e) ↦ simp e (
            Ensures-bind (new_send-Holds i MpState.prepared (sge buf size key ∷ []) s frees lim fl)
              (λ f. f)
              λ p t holds.
                simp no_events (prepare_both-Kept env (available env frees s) i p t holds))
      ]

  waited-none :
      (i : ℕ) (p : Ptr) (s : State W)
      → (p == null) ≡ false
      → Ensures
          (λ (r : Posted) _. r.1 ≡ none)
          Unit
          ((wait_unless_event_sync env i true p >>= λ r. pure (r.0, none)) s)
  unfolding wait_unless_event_sync prepare_wait_cq
  waited-none i p s ne = elim (Bool-cases config.use_event_sync) [
    | inl e ↦ rw e (done refl)
    | inr e ↦ rw (e, ne) (done refl)
  ]

  sent :
      (i : ℕ) (p : Ptr) (ret : Code) (s : State W)
      → (p == null) ≡ false
      → Ensures
          (λ (r : Posted) _. r.1 ≡ none)
          Unit
          ((if ret == 0
              then wait_unless_event_sync env i true p >>= (λ r. pure (r.0, none))
              else pure (ret, none))
            s)
  sent i p ret s ne = elim (Bool-cases (ret == 0)) [
    | inl e ↦ rw e (waited-none i p s ne)
    | inr e ↦ rw e (done refl)
  ]

  -- On a pool that is as it should be, mp_isendv returns or faults, and stores nothing in `*req_t`,
  -- whatever code it returns.
  mp_isendv-none :
      (v : List Iovec) (peer key : ℕ) (s : State W) (frees : List Ptr)
      → 0 < config.mp_request_limit
      → FreeList frees s
      → Ensures (λ (r : Posted) _. r.1 ≡ none) Unit (mp_isendv env v peer key s)
  unfolding mp_isendv attach_sgv
  mp_isendv-none v peer key s frees lim fl = elim (Bool-cases (ltb config.ib_max_sge (length v))) [
    | inl e ↦ rw e (done refl)
    | inr e ↦ rw e (elim (Option-cases (config.client_index peer)) [
      | inl e' ↦ rw e' (faults tt)
      | inr (i, e') ↦ simp e' (
          Ensures-bind
            (new_stream_request-IsNew env i MpReqType.send MpState.pending_nowait s frees lim fl)
            (λ _. tt)
            λ p t (rest, taken, _, _, _).
              let ne : (p == null) ≡ false = ground (arith, taken.ne_null) in
              elim (Bool-cases (env.malloc t.world).0) [
                | inr refused ↦ rw refused (faults tt)
                | inl given ↦ rw (given, ne, ne, ne) (sent i p _ _ ne)
              ])
    ])
  ]
