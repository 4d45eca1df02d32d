-- ===== src/Pool/Listed.antt =====
-- The list of regions of src/mp.c, which mp_finalize frees, and the pool behind a second refill.
use libmp.Base.{
  ℕ, zero, suc, ◌+◌, ◌<◌, ◌≤◌, ◌≡◌, refl, sym, subst, true, false, Bool, List, [], ◌∷◌, All, arith,
  ◌==◌, Bool-cases, inl, inr,
}
use libmp.Types.{Ptr, null}
use libmp.Env.{Env}
use libmp.Machine.{State}
use libmp.Machine.Outcome.{Ensures, done, faults, Ensures-bind, Ensures-mono, Ensures-and}
use libmp.Pool.{add_region, set_region, pop_free, allocate_requests, refill, get_request}
use libmp.Pool.Region.{addresses}
use libmp.Pool.FreeList.{FreeList, PoolFails}
use libmp.Pool.Take.{get_request-FreeList}

-- All requests of the regions, with `limit` requests each, lie below `a`.
abbrev pub Beyond : (limit : ℕ) → (regions : List Ptr) → Ptr → Type 0
Beyond limit regions a = All (λ r. r + limit ≤ a) regions

Beyond-mono :
    (limit : ℕ) (regions : List Ptr) (a b : Ptr)
    → a ≤ b
    → Beyond limit regions a
    → Beyond limit regions b
Beyond-mono limit [] a b le all = tt
Beyond-mono limit (r ∷ rs) a b le (one, all) = (omega arith, Beyond-mono limit rs a b le all)

addresses-Beyond :
    (limit n : ℕ) (regions : List Ptr) (a : Ptr)
    → Beyond limit regions a
    → All (λ p. Beyond limit regions p) (addresses n a)
addresses-Beyond limit zero regions a all = tt
addresses-Beyond limit (suc n) regions a all = (
  all,
  addresses-Beyond limit n regions (a + 1) (Beyond-mono limit regions a _ (omega arith) all),
)

-- the list of regions is `r ∷ rs`
abbrev Lists : {W : Type 0} → Ptr → List Ptr → State W → Type 0
Lists r rs s = s.mem_regions ≡ r ∷ rs

module _ {W : Type 0} (r : Ptr) (rs : List Ptr) where
  set_region-Lists :
      (limit : ℕ) (given : Bool) (s : State W)
      → Lists r rs s
      → Ensures (λ _ t. Lists r rs t) Unit (set_region limit given s)
  set_region-Lists limit false s e = faults tt
  set_region-Lists limit true s e =
      done (subst (λ regions. add_region s.brk regions ≡ r ∷ rs) (sym e) refl)

  pop_free-Lists : (s : State W) → Lists r rs s → Ensures (λ _ t. Lists r rs t) Unit (pop_free s)
  unfolding pop_free
  pop_free-Lists s listed = elim (Bool-cases (s.free_list == null)) [
    | inl e ↦ rw e (faults tt)
    | inr e ↦ rw (e, e) (done listed)
  ]

module _ {W : Type 0} (env : Env W) (r : Ptr) (rs : List Ptr) where
  open env use {config}

  allocate_requests-Lists :
      (s : State W) → Lists r rs s → Ensures (λ _ t. Lists r rs t) Unit (allocate_requests env s)
  unfolding allocate_requests
  allocate_requests-Lists s listed = elim (Bool-cases (s.free_list == null)) [
    | inr e ↦ rw e (faults tt)
    | inl e ↦ rw e (elim (Bool-cases (env.malloc s.world).0) [
      | inr refused ↦ rw refused (faults tt)
      | inl given ↦ rw given (set_region-Lists r rs _ _ _ listed)
    ])
  ]

  refill-Lists : (s : State W) → Lists r rs s → Ensures (λ _ t. Lists r rs t) Unit (refill env s)
  unfolding refill
  refill-Lists s listed = elim (Bool-cases (s.free_list == null)) [
    | inr e ↦ rw e (done listed)
    | inl e ↦ rw e (
        Ensures-bind (allocate_requests-Lists s listed) (λ f. f)
          λ _ t keeps. elim (Bool-cases (t.free_list == null)) [
            | inl none_free ↦ rw none_free (faults tt)
            | inr some_free ↦ rw some_free (done keeps)
          ])
  ]

  get_request-Lists :
      (s : State W) → Lists r rs s → Ensures (λ _ t. Lists r rs t) Unit (get_request env s)
  unfolding get_request
  get_request-Lists s listed =
      Ensures-bind (refill-Lists s listed) (λ f. f) λ _ t kept. pop_free-Lists r rs t kept

  -- If the pool is empty, the list of regions is not, and no region on it reaches beyond the
  -- addresses used so far, then get_request faults, and that only if malloc fails, or it returns a
  -- request and leaves a pool such that neither the request nor any other in the pool is in a
  -- region on the list, as it is then, by which mp_finalize frees.
  pub get_request-Beyond :
      (s : State W)
      → s.mem_regions ≡ r ∷ rs
      → Beyond config.mp_request_limit (r ∷ rs) s.brk
      → 0 < config.mp_request_limit
      → FreeList [] s
      → Ensures
          (λ p t.
            (rest : List Ptr) × FreeList rest t
            × All (λ a. Beyond config.mp_request_limit t.mem_regions a) (p ∷ rest))
          (PoolFails env [] s)
          (get_request env s)
  get_request-Beyond s listed beyond lim fl =
      Ensures-mono (Ensures-and (get_request-FreeList env s [] lim fl) (get_request-Lists s listed))
        (λ f. f)
        λ p t ((rest, taken, same, linked), kept). (
          rest,
          taken.free,
          subst (λ regions. All (λ a. Beyond config.mp_request_limit regions a) (p ∷ rest))
              (sym kept)
              (subst (λ ps. All (λ a. Beyond config.mp_request_limit (r ∷ rs) a) ps) taken.order
                (addresses-Beyond config.mp_request_limit config.mp_request_limit (r ∷ rs) s.brk
                  beyond)),
        )
