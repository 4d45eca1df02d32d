-- ===== src/Pool/Refill.antt =====
-- A new region of requests: `allocate_requests` and the refill in `get_request` of src/mp.c.
use libmp.Base.{
  ◌∷◌, ℕ, suc, ◌-◌, ◌<◌, ◌≡◌, refl, subst, length, Bool, true, false, List, [], ◌∷◌, arith, ◌==◌,
  Bool-cases, inl, inr,
}
use libmp.Types.{Ptr, null}
use libmp.Env.{Env}
use libmp.Machine.{State}
use libmp.Machine.Outcome.{Ensures, done, faults, Ensures-bind, Ensures-mono}
use libmp.Machine.Heap.{Chain, Chain-nil, Chain-head}
use libmp.Pool.{allocate_requests, set_region, refill}
use libmp.Pool.Region.{
  addresses, length-addresses, addresses-All, link_requests-Chain, link_requests-below,
}
use libmp.Pool.{link_requests}
use libmp.Pool.FreeList.{FreeList, SameOthers, refilled, MallocFails, PoolFails}

module _ {W : Type 0} (env : Env W) where
  open env use {config}

  abbrev pub limit : ℕ
  limit = config.mp_request_limit

  -- a region that `malloc` gives, or a bad access
  set_region-FreeList :
      (b : Bool) (s : State W)
      → 0 < limit
      → 0 < s.brk
      → Ensures
          (λ _ t. FreeList (addresses limit s.brk) t × SameOthers [] s t)
          (b ≡ false)
          (set_region limit b s)
  set_region-FreeList false s lim pos = faults refl
  set_region-FreeList true s lim pos =
      let e : suc (limit - 1) ≡ limit = omega arith in
      done (
        record {
          chain =
              subst (λ n. Chain (link_requests (limit - 1) s.brk s.reqs) s.brk (addresses n s.brk))
                e (link_requests-Chain (limit - 1) s.brk s.reqs pos);
          allocated = addresses-All limit s.brk _ (omega arith);
          positive = omega arith;
        },
        record {
          reqs = λ a lt out. link_requests-below (limit - 1) s.brk a s.reqs lt;
          clients = refl;
          grows = omega arith;
        },
      )

  -- An empty pool gets a region of `mp_request_limit` requests, all of them free.
  pub allocate_requests-FreeList :
      (s : State W)
      → 0 < limit
      → 0 < s.brk
      → s.free_list ≡ null
      → Ensures
          (λ _ t. FreeList (addresses limit s.brk) t × SameOthers [] s t)
          (MallocFails env s)
          (allocate_requests env s)
  unfolding allocate_requests
  allocate_requests-FreeList s lim pos e =
      let e' : (s.free_list == null) ≡ true = ground arith in
      rw e' (elim (Bool-cases (env.malloc s.world).0) [
        | inl given ↦ rw given (
            Ensures-mono (set_region-FreeList (env.malloc (env.malloc s.world).1).0 _ lim pos)
              (λ f. inr f) (λ _ _ p. p))
        | inr refused ↦ rw refused (faults (inl refl))
      ])

  -- A head that is not `NULL` passes the assertion behind `allocate_requests`.
  asserted :
      (t : State W) (frees : List Ptr)
      → 0 < length frees
      → FreeList frees t
      → (t.free_list == null) ≡ false
  asserted t [] pos fl = absurd (omega arith)
  asserted t (p ∷ frees) pos fl = ground (arith, Chain-head fl.chain)

  pub refill-FreeList :
      (s : State W) (frees : List Ptr)
      → 0 < limit
      → FreeList frees s
      → Ensures
          (λ _ t. FreeList (refilled limit s.brk frees) t × SameOthers frees s t)
          (PoolFails env frees s)
          (refill env s)
  unfolding refill
  refill-FreeList s [] lim fl =
      let e : (s.free_list == null) ≡ true = rw (Chain-nil fl.chain) in
      rw e (
        Ensures-bind (allocate_requests-FreeList s lim fl.positive (Chain-nil fl.chain))
          (λ f. (refl, f))
          λ _ t (free, same).
            rw
              (asserted t (addresses limit s.brk) (omega (arith, length-addresses limit s.brk))
                free)
              (done (free, same)))
  refill-FreeList s (p ∷ frees) lim fl =
      let e : (s.free_list == null) ≡ false = ground (arith, Chain-head fl.chain) in
      rw e (done (fl, record { reqs = λ a lt out. refl; clients = refl; grows = omega arith }))
