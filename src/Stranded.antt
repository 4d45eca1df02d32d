-- ===== src/Stranded.antt =====
-- `mp_send_post_all_on_stream` of src/mp_peersync.c outside the event-synchronous mode, and the
-- completions of its sends in `mp_progress_single_flow` of src/mp.c.
use libmp.Base.{
  ℕ, ◌≡◌, refl, ◌∙◌, ap, sym, subst, ◌||◌, true, false, List, [], ◌∷◌, ◌++◌, All, arith, ◌==◌, leb,
  Bool-cases, inl, inr, length,
}
use libmp.Types.{
  Ptr, null, MpFlow, prepared, is_prepared, is_pending, is_pending_nowait, MpState, undef,
  pending_nowait, pending, complete, n_states, Wc,
}
use libmp.Env.{Env}
use libmp.Machine.{State, Fault, fault}
use libmp.Machine.Outcome.{Ensures, done, faults, Ensures-bind, Ensures-mono}
use libmp.Progress.{complete_entry}
use libmp.Stream.{firsts, collect, gather_infos, info_array, mp_send_post_all_on_stream}

abbrev pub good : Ptr → Wc
good p = record { success = true; wr_id = p }

-- A completion without an error for `p` makes the process exit.
abbrev pub Exits : {W : Type 0} → Env W → ℕ → MpFlow → State W → Ptr → Type 0
Exits env client flow s p = complete_entry env client flow (good p) s ≡ fault Fault.exited

prepared-idle :
    (state : MpState)
    → is_prepared state ≡ true
    → (is_pending_nowait state || is_pending state) ≡ false
prepared-idle undef e = refl
prepared-idle prepared e = refl
prepared-idle pending_nowait e = ground arith
prepared-idle pending e = ground arith
prepared-idle complete e = refl
prepared-idle n_states e = refl

-- the request at an address that is not `NULL` is prepared
abbrev IsPrepared : {W : Type 0} → State W → Ptr → Type 0
IsPrepared s p = ((p == null) ≡ false) × (is_prepared (s.reqs p).status ≡ true)

module _ {W : Type 0} (env : Env W) (client : ℕ) (flow : MpFlow) where
  -- what a prepared request does in a state with the requests of `s`
  abbrev pub Stranded : State W → State W → List Ptr → Type 0
  Stranded s t reqs = (t.reqs ≡ s.reqs) × All (Exits env client flow t) reqs

  prepared-Exits : (s : State W) (p : Ptr) → IsPrepared s p → Exits env client flow s p
  unfolding complete_entry
  prepared-Exits s p (ne, e) = rw (ne, ne, prepared-idle (s.reqs p).status e) refl

  info_array-same :
      (count : ℕ) (s : State W) → Ensures (λ _ t. t.reqs ≡ s.reqs) Unit (info_array env count s)
  unfolding info_array
  info_array-same count s = elim (Bool-cases (leb count 8)) [
    | inl e ↦ rw e (done refl)
    | inr e ↦ rw e (elim (Bool-cases (env.malloc s.world).0) [
      | inl given ↦ rw given (done refl)
      | inr refused ↦ rw refused (faults tt)
    ])
  ]

  gather_infos-IsPrepared :
      (reqs : List Ptr) (infos : List (ℕ × ℕ)) (s : State W)
      → Ensures
          (λ _ t. (t ≡ s) × All (IsPrepared s) reqs)
          Unit
          (collect (gather_infos env) reqs infos s)
  unfolding collect gather_infos
  gather_infos-IsPrepared [] infos s = done (refl, tt)
  gather_infos-IsPrepared (p ∷ reqs) infos s = elim (Bool-cases (p == null)) [
    | inl e ↦ rw e (faults tt)
    | inr e ↦ rw e (elim (Bool-cases (is_prepared (s.reqs p).status)) [
      | inr idle ↦ rw idle (faults tt)
      | inl ready ↦ rw ready (
          Ensures-mono
            (gather_infos-IsPrepared reqs
              (infos ++ ((s.reqs p).gds_send_info, (s.reqs p).gds_wait_info) ∷ []) s)
            (λ f. f) λ _ t (same, all). (same, ((refl, refl), all)))
    ])
  ]

  Exits-All :
      (s : State W) (reqs : List Ptr) → All (IsPrepared s) reqs → All (Exits env client flow s) reqs
  Exits-All s [] all = tt
  Exits-All s (p ∷ reqs) (ready, all) = (prepared-Exits s p ready, Exits-All s reqs all)

  -- Outside the event-synchronous mode, mp_send_post_all_on_stream returns or faults, and leaves
  -- every request as it is. So those that it posted are still prepared, and a completion without an
  -- error for any of them makes the process exit.
  pub mp_send_post_all-Stranded :
      (reqs : List Ptr) (stream : ℕ) (s : State W)
      → env.config.use_event_sync ≡ false
      → Ensures (λ _ t. Stranded s t reqs) Unit (mp_send_post_all_on_stream env reqs stream s)
  unfolding mp_send_post_all_on_stream
  mp_send_post_all-Stranded reqs stream s no_events = simp no_events (
      Ensures-bind (info_array-same (length reqs) s) (λ f. f)
        λ _ t e.
          Ensures-bind (info_array-same (length reqs) t) (λ f. f)
            λ _ u e'.
              Ensures-bind (gather_infos-IsPrepared reqs [] u) (λ f. f)
                λ (_, infos) v (same, all).
                  let kept : v.reqs ≡ s.reqs = ap (λ (w : State W). w.reqs) same ∙ (e' ∙ e) in
                  let ready : All (IsPrepared v) reqs =
                    subst (λ w. All (IsPrepared w) reqs) (sym same) all in
                  elim (Bool-cases
                    ((env.gds_stream_post_send_all stream (firsts infos) v.world).0 == 0)) [
                      | inl z ↦ rw z (done (kept, Exits-All _ reqs ready))
                      | inr z ↦ rw z (done (kept, Exits-All _ reqs ready))
                    ])
