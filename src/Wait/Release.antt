-- ===== src/Wait/Release.antt =====
-- The end of `mp_wait_all` in src/mp.c: its loop over requests that may be complete.
use libmp.Base.{
  ℕ, ◌<◌, ◌≡◌, refl, ◌∙◌, ◌≢◌, Bool, true, false, ◌&&◌, List, [], ◌∷◌, arith, ◌==◌, if◌then◌else◌,
  ◌∈◌, ◌∉◌, Bool-cases, inl, inr,
}
use libmp.Types.{Code, mp_failure, Ptr, null, Request, is_complete}
use libmp.Env.{Env}
use libmp.Machine.{State}
use libmp.Machine.Outcome.{Returns, returns, Returns-bind, Returns-mono}
use libmp.Pool.FreeList.{FreeList}
use libmp.Pool.Release.{release_mp_request-FreeList}
use libmp.Wait.{release_each}

-- The requests are distinct, allocated below `brk`, and not on the free list.
abbrev pub InUse : (brk : Ptr) → (frees reqs : List Ptr) → Type 0
InUse brk frees [] = Unit
InUse brk frees (p ∷ reqs) =
    (p ≢ null) × (p < brk) × (p ∉ frees) × (p ∉ reqs) × InUse brk frees reqs

-- the free list with the complete ones of `reqs` put in front, one after the other
abbrev pub pushed : (Ptr → Request) → (reqs frees : List Ptr) → List Ptr
pushed h [] frees = frees
pushed h (p ∷ reqs) frees = pushed h reqs (if is_complete (h p).status then p ∷ frees else frees)

abbrev pub all_complete : (Ptr → Request) → List Ptr → Bool
all_complete h [] = true
all_complete h (p ∷ reqs) = is_complete (h p).status && all_complete h reqs

InUse-cons :
    (brk p : Ptr) (frees reqs : List Ptr)
    → InUse brk frees reqs
    → p ∉ reqs
    → InUse brk (p ∷ frees) reqs
InUse-cons brk p frees [] used out = tt
InUse-cons brk p frees (q ∷ reqs) (ne, lt, free, apart, used) out =
    (ne, lt, ground arith, apart, InUse-cons brk p frees reqs used (ground arith))

if-same : (b : Bool) (x : ℕ) → (if b then x else x) ≡ x
if-same true x = refl
if-same false x = refl

module _ {W : Type 0} where
  -- what the third loop of mp_wait_all leaves: `code`, the free list, and all other requests
  abbrev pub Released : (h : Ptr → Request) → (reqs frees : List Ptr) → (s t : State W) → Type 0
  Released h reqs frees s t =
      FreeList (pushed h reqs frees) t
      × ((a : Ptr) → a ∉ reqs → t.reqs a ≡ s.reqs a)
      × (t.clients ≡ s.clients)
      × (t.brk ≡ s.brk)

module _ {W : Type 0} (env : Env W) where
  release_each-at :
      (h : Ptr → Request) (reqs frees : List Ptr) (ret : Code) (s : State W)
      → FreeList frees s
      → InUse s.brk frees reqs
      → ((a : Ptr) → a ∈ reqs → s.reqs a ≡ h a)
      → Returns
          (λ code t.
            (code ≡ (if all_complete h reqs then ret else mp_failure)) × Released h reqs frees s t)
          (release_each env reqs ret s)
  unfolding release_each
  release_each-at h [] frees ret s fl used same = returns (refl, (fl, λ a out. refl, refl, refl))
  release_each-at h (p ∷ reqs) frees ret s fl (ne, lt, free, apart, used) same =
      let e : (p == null) ≡ false = ground arith in
      let at : s.reqs p ≡ h p = same p (ground arith) in
      elim (Bool-cases (is_complete (h p).status)) [
        | inl full ↦
            rw (e, at, full)
              (Returns-bind (release_mp_request-FreeList s p frees fl ne lt free)
                λ _ t (fl', _, _, others, clients, brk).
                  Returns-mono
                    (release_each-at h reqs (p ∷ frees) ret t fl'
                      (rw brk (InUse-cons s.brk p frees reqs used apart))
                      λ a i. others a (ground (arith, apart)) ∙ same a (ground arith))
                    λ code u (c, (fl'', others', clients', brk')). (
                      c,
                      (
                        fl'',
                        λ a out. others' a (ground arith) ∙ others a (ground arith),
                        clients' ∙ clients,
                        brk' ∙ brk,
                      ),
                    ))
        | inr part ↦
            rw (e, at, part)
              (Returns-mono
                (release_each-at h reqs frees mp_failure s fl used λ a i. same a (ground arith))
                λ code u (c, (fl'', others', clients', brk')). (
                  c ∙ if-same (all_complete h reqs) mp_failure,
                  (fl'', λ a out. others' a (ground arith), clients', brk'),
                ))
      ]

  -- For distinct allocated requests that are not free, the third loop of mp_wait_all returns: it
  -- puts those that are complete in front of the free list, the last one first, and leaves all
  -- other requests and the clients alone; the code is the one that it starts with if all are
  -- complete, and `MP_FAILURE` else.
  pub release_each-Released :
      (reqs frees : List Ptr) (ret : Code) (s : State W)
      → FreeList frees s
      → InUse s.brk frees reqs
      → Returns
          (λ code t.
            (code ≡ (if all_complete s.reqs reqs then ret else mp_failure))
            × Released s.reqs reqs frees s t)
          (release_each env reqs ret s)
  release_each-Released reqs frees ret s fl used =
      release_each-at s.reqs reqs frees ret s fl used λ a i. refl
