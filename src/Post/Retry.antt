-- ===== src/Post/Retry.antt =====
-- The retry loop of `mp_post_send` and `mp_post_recv` in src/mp.c.
use libmp.Base.{ℕ, zero, suc, ◌+◌, ◌≤◌, ◌<◌, ◌≡◌, false, ◌==◌, leb, arith, Bool-cases, inl, inr}
use libmp.Types.{Code, enomem, mp_max_progress_flow_try, Ptr, null, MpFlow, tx_flow, rx_flow}
use libmp.Env.{Env}
use libmp.Machine.{State, M}
use libmp.Machine.Outcome.{Ensures, done, faults, Ensures-bind}
use libmp.Post.{post_sr, post_rr, retry_loop, mp_post_send, mp_post_recv}
use libmp.Progress.Engine.{NoWaited, Progressed, Progressed-refl, single_flow-Progressed}

module _ {W : Type 0} (env : Env W) (no_events : env.config.use_event_sync ≡ false) (s : State W)
    (none_waited : NoWaited s) (pos : 0 < s.brk) where
  -- With one round for each attempt that is left, the fuel is enough.
  retry_loop-Progressed :
      (flow : MpFlow) (post : M W Code)
      → ((t : State W) → Progressed s t → Ensures (λ _ u. Progressed s u) Unit (post t))
      → (fuel tries : ℕ) → tries ≤ mp_max_progress_flow_try
      → fuel + tries ≡ mp_max_progress_flow_try + 1
      → (t : State W) → Progressed s t
      → Ensures (λ _ u. Progressed s u) Unit (retry_loop env fuel flow post tries t)
  unfolding retry_loop
  retry_loop-Progressed flow post keeps zero tries le enough t p = absurd (omega arith)
  retry_loop-Progressed flow post keeps (suc fuel) tries le enough t p =
      Ensures-bind (keeps t p) (λ f. f)
        λ ret u q. elim (Bool-cases (ret == enomem)) [
          | inr e ↦ rw e (done q)
          | inl e ↦ rw e (
              Ensures-bind (single_flow-Progressed env no_events s none_waited pos flow u q)
                (λ f. f)
                λ code v (_, r). elim (Bool-cases (code == 0)) [
                  | inr e' ↦ rw e' (done r)
                  | inl e' ↦ rw e' (elim (Bool-cases (leb (tries + 1) mp_max_progress_flow_try)) [
                    | inr last ↦ rw last (done r)
                    | inl more ↦ rw more (
                        retry_loop-Progressed flow post keeps fuel (tries + 1) (ground arith)
                          (omega arith) v r)
                  ])
                ])
        ]

  post_sr-Progressed :
      (client : ℕ) (p : Ptr) (t : State W)
      → Progressed s t
      → Ensures (λ _ u. Progressed s u) Unit (post_sr env client p t)
  post_sr-Progressed client p t q = elim (Bool-cases (p == null)) [
    | inl e ↦ rw e (faults tt)
    | inr e ↦ rw e (done q)
  ]

  post_rr-Progressed :
      (client : ℕ) (p : Ptr) (t : State W)
      → Progressed s t
      → Ensures (λ _ u. Progressed s u) Unit (post_rr env client p t)
  post_rr-Progressed client p t q = elim (Bool-cases (p == null)) [
    | inl e ↦ rw e (faults tt)
    | inr e ↦ rw e (done q)
  ]

  -- Outside the event-synchronous mode, with no waited request tracked, mp_post_send and
  -- mp_post_recv end within 101 attempts: they return or fault, and what they change of requests,
  -- clients and pool is what progress changes.
  pub post-Progressed :
      (client : ℕ) (p : Ptr)
      → Ensures (λ _ t. Progressed s t) Unit (mp_post_send env client p s)
        × Ensures (λ _ t. Progressed s t) Unit (mp_post_recv env client p s)
  unfolding mp_post_send mp_post_recv
  post-Progressed client p = elim (Bool-cases (p == null)) [
    | inl e ↦ rw e (done (Progressed-refl s), done (Progressed-refl s))
    | inr e ↦ rw e (
      retry_loop-Progressed tx_flow (post_sr env client p) (post_sr-Progressed client p)
          (mp_max_progress_flow_try + 1) 0 (omega arith) (omega arith) s (Progressed-refl s),
      retry_loop-Progressed rx_flow (post_rr env client p) (post_rr-Progressed client p)
          (mp_max_progress_flow_try + 1) 0 (omega arith) (omega arith) s (Progressed-refl s),
    )
  ]
