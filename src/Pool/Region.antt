-- ===== src/Pool/Region.antt =====
-- The loop of `allocate_requests` that links the requests of a new region.
use libmp.Base.{
  length, update_self, ap, ℕ, zero, suc, ◌+◌, ◌≤◌, ◌<◌, ◌≡◌, refl, ap, ◌∙◌, List, [], ◌∷◌, arith,
  All, ◌∉◌, update, update_ne,
}
use libmp.Types.{Ptr, Request}
use libmp.Machine.Heap.{Chain, nil, cons}
use libmp.Pool.{link_requests}

-- the `n` addresses from `p` on
abbrev pub addresses : ℕ → Ptr → List Ptr
addresses zero p = []
addresses (suc n) p = p ∷ addresses n (p + 1)

pub length-addresses : (n : ℕ) (p : Ptr) → length (addresses n p) ≡ n
length-addresses zero p = refl
length-addresses (suc n) p = ap suc (length-addresses n (p + 1))

pub addresses-below : (n : ℕ) (p a : Ptr) → a < p → a ∉ addresses n p
addresses-below zero p a h = refl
addresses-below (suc n) p a h = ground (arith, addresses-below n (p + 1) a)

pub addresses-above : (n : ℕ) (p a : Ptr) → p + n ≤ a → a ∉ addresses n p
addresses-above zero p a h = refl
addresses-above (suc n) p a h = ground (arith, addresses-above n (p + 1) a)

pub addresses-All : (n : ℕ) (p q : Ptr) → p + n ≤ q → All (λ a. a < q) (addresses n p)
addresses-All zero p q h = tt
addresses-All (suc n) p q h = (omega arith, addresses-All n (p + 1) q (omega arith))

-- Below the region nothing changes.
pub link_requests-below :
    (n : ℕ) (p a : Ptr) (h : Ptr → Request) → a < p → link_requests n p h a ≡ h a
unfolding link_requests
link_requests-below zero p a h lt = update_ne h p a _ (omega arith)
link_requests-below (suc n) p a h lt =
    link_requests-below n (p + 1) a _ (omega arith) ∙ update_ne h p a _ (omega arith)

-- The links of a region run through its requests in the order of their addresses.
pub link_requests-Chain :
    (n : ℕ) (p : Ptr) (h : Ptr → Request)
    → 0 < p
    → Chain (link_requests n p h) p (addresses (suc n) p)
unfolding link_requests update
link_requests-Chain zero p h pos = cons (omega arith) (ground arith) refl nil
link_requests-Chain (suc n) p h pos =
    cons (omega arith)
      (ap (λ (r : Request). r.next)
        (link_requests-below n (p + 1) p _ (omega arith) ∙ update_self h p _))
      (addresses-below (suc n) (p + 1) p (omega arith))
      (link_requests-Chain n (p + 1) _ (omega arith))
