-- ===== src/Wait/Ready.antt =====
-- `mp_wait_all` of src/mp.c on requests that are complete, and on one that cannot be waited for.
use libmp.Base.{
  ℕ, suc, ◌≡◌, refl, ◌∙◌, ap, subst, ◌≢◌, ◌∉◌, Bool, true, false, ◌&&◌, List, [], ◌∷◌, ◌++◌, All,
  arith, ◌==◌, if◌then◌else◌, Bool-cases, inl, inr, some,
}
use libmp.Types.{
  mp_failure, einval, Ptr, null, Request, is_live_type, req_valid, waitable, complete,
}
use libmp.Env.{Env}
use libmp.Machine.{State, ok}
use libmp.Machine.Outcome.{Returns, returns, Returns-mono}
use libmp.Pool.FreeList.{FreeList}
use libmp.Wait.{prepare_wait, for_reqs, wait_loop, wait_each, mp_wait_all}
use libmp.Wait.Release.{InUse, pushed, all_complete, release_each-Released}

-- `p` is a valid request with a type for which `mp_wait` can wait.
abbrev pub CanWait : (Ptr → Request) → Bool → Ptr → Type 0
CanWait h can p =
    (p ≢ null) × (req_valid (h p) && is_live_type (h p).type ≡ true) × (waitable (h p) ≡ can)

-- such a request that is complete
abbrev pub Ready : (Ptr → Request) → Ptr → Type 0
Ready h p = CanWait h true p × ((h p).status ≡ complete)

-- the free list with `reqs` put in front, one after the other
abbrev pub stacked : (reqs frees : List Ptr) → List Ptr
stacked [] frees = frees
stacked (p ∷ reqs) frees = stacked reqs (p ∷ frees)

Ready-complete :
    (h : Ptr → Request) (reqs : List Ptr)
    → All (Ready h) reqs
    → (all_complete h reqs ≡ true) × ((frees : List Ptr) → pushed h reqs frees ≡ stacked reqs frees)
Ready-complete h [] ready = (refl, λ frees. refl)
Ready-complete h (p ∷ reqs) ((_, full), ready) =
    let (c, order) = Ready-complete h reqs ready in
    (rw full c, λ frees. rw full (order (p ∷ frees)))

module _ {W : Type 0} (env : Env W) where
  open env use {config}

  pub prepare_wait-Ready : (s : State W) (p : Ptr) → Ready s.reqs p → prepare_wait env p s ≡ ok 0 s
  unfolding prepare_wait
  prepare_wait-Ready s p ((ne, valid, can), full) =
      let e : (p == null) ≡ false = ground arith in
      elim (Bool-cases config.mp_enable_ipc) [
        | inl ipc ↦ simp (e, ipc, full) refl
        | inr verbs ↦ rw (e, verbs, valid, can, full) refl
      ]

  pub for_reqs-Ready :
      (s : State W) (reqs rest : List Ptr)
      → All (Ready s.reqs) reqs
      → for_reqs env (prepare_wait env) (reqs ++ rest) s ≡ for_reqs env (prepare_wait env) rest s
  unfolding for_reqs
  for_reqs-Ready s [] rest ready = refl
  for_reqs-Ready s (p ∷ reqs) rest (r, ready) =
      rw (prepare_wait-Ready s p r) (for_reqs-Ready s reqs rest ready)

  for_reqs-All :
      (s : State W) (reqs : List Ptr)
      → All (Ready s.reqs) reqs
      → for_reqs env (prepare_wait env) reqs s ≡ ok 0 s
  unfolding for_reqs
  for_reqs-All s [] ready = refl
  for_reqs-All s (p ∷ reqs) (r, ready) = rw (prepare_wait-Ready s p r) (for_reqs-All s reqs ready)

  pub wait_each-Ready :
      (fuel start : ℕ) (s : State W) (reqs : List Ptr)
      → All (Ready s.reqs) reqs
      → wait_each env (suc fuel) reqs start s ≡ ok 0 s
  unfolding wait_each wait_loop
  wait_each-Ready fuel start s [] ready = refl
  wait_each-Ready fuel start s (p ∷ reqs) (((ne, valid, can), full), ready) =
      let e : (p == null) ≡ false = ground arith in
      rw (e, full) (wait_each-Ready fuel start s reqs ready)

  -- For distinct requests in use that are complete and of a type that can be waited for, and a
  -- clock that works, mp_wait_all returns 0 after at most one look at each, and all of them are
  -- back on the free list, the last one first; nothing else changes.
  pub mp_wait_all-Ready :
      (fuel t0 : ℕ) (reqs frees : List Ptr) (s : State W)
      → (env.get_cycles s.world).0 ≡ some t0
      → FreeList frees s
      → InUse s.brk frees reqs
      → All (Ready s.reqs) reqs
      → Returns
          (λ code t.
            (code ≡ 0)
            × FreeList (stacked reqs frees) t
            × ((a : Ptr) → a ∉ reqs → t.reqs a ≡ s.reqs a)
            × (t.clients ≡ s.clients))
          (mp_wait_all env (suc fuel) reqs s)
  unfolding mp_wait_all
  mp_wait_all-Ready fuel t0 reqs frees s clock fl used ready =
      let u : State W = record s { world = (env.get_cycles s.world).1 } in
      let (full, order) = Ready-complete s.reqs reqs ready in
      rw (clock, for_reqs-All u reqs ready, wait_each-Ready fuel t0 u reqs ready)
        (Returns-mono (release_each-Released env reqs frees 0 u fl used)
          λ code t (c, (fl', others, clients, _)). (
            c ∙ ap (λ b. if b then 0 else mp_failure) full,
            subst (λ xs. FreeList xs t) (order frees) fl',
            others,
            clients,
          ))

  refused :
      (s : State W) (p : Ptr) (rest : List Ptr)
      → config.mp_enable_ipc ≡ false
      → CanWait s.reqs false p
      → for_reqs env (prepare_wait env) (p ∷ rest) s ≡ ok einval s
  unfolding for_reqs prepare_wait
  refused s p rest verbs (ne, valid, can) =
      let e : (p == null) ≡ false = ground arith in rw (verbs, e, valid, can) refl

  -- Outside the IPC mode, with a clock that works, mp_wait_all returns `EINVAL` when it comes to a
  -- request for which it cannot wait, a put with `MP_PUT_NOWAIT`, behind requests that are complete;
  -- no request and no client changes, and the complete ones stay out of the pool.
  pub mp_wait_all-einval :
      (fuel t0 p : ℕ) (reqs rest : List Ptr) (s : State W)
      → config.mp_enable_ipc ≡ false
      → (env.get_cycles s.world).0 ≡ some t0
      → All (Ready s.reqs) reqs
      → CanWait s.reqs false p
      → Returns
          (λ code t. (code ≡ einval) × (t ≡ record s { world = (env.get_cycles s.world).1 }))
          (mp_wait_all env fuel (reqs ++ p ∷ rest) s)
  unfolding mp_wait_all
  mp_wait_all-einval fuel t0 p reqs rest s verbs clock ready cannot =
      let u : State W = record s { world = (env.get_cycles s.world).1 } in
      rw (clock, for_reqs-Ready u reqs (p ∷ rest) ready, refused u p rest verbs cannot)
        (returns (refl, refl))
