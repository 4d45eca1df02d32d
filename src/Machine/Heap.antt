-- ===== src/Machine/Heap.antt =====
-- Chains of requests: the addresses that the `next` pointers run through from a head to `NULL`.
use libmp.Base.{◌≡◌, refl, ◌≢◌, List, [], ◌∷◌, arith, ◌∈◌, ◌∉◌, update}
use libmp.Types.{Ptr, null, Request}

-- From `p` the pointers run through the distinct addresses `xs`, and end in `NULL`.
pub data Chain (h : Ptr → Request) : Ptr → List Ptr → Type 0 where
  nil : Chain h null []
  cons :
      {p q : Ptr} {xs : List Ptr}
      → p ≢ null
      → (h p).next ≡ q
      → p ∉ xs
      → Chain h q xs
      → Chain h p (p ∷ xs)

-- `g` has the links of `h` at the addresses of `xs`.
abbrev pub SameLinks : List Ptr → (Ptr → Request) → (Ptr → Request) → Type 0
SameLinks xs h g = (a : Ptr) → a ∈ xs → (g a).next ≡ (h a).next

module _ {h : Ptr → Request} where
  pub Chain-nil : {p : Ptr} → Chain h p [] → p ≡ null
  Chain-nil nil = refl

  pub Chain-frame :
      {g : Ptr → Request} {p : Ptr} {xs : List Ptr} → Chain h p xs → SameLinks xs h g → Chain g p xs
  Chain-frame nil same = nil
  Chain-frame (cons {p} ne e out c) same =
      cons ne (ground (arith, same p)) out (Chain-frame c λ a i. same a (ground arith))

  -- A change outside the chain does not touch it.
  pub Chain-update :
      {p : Ptr} {xs : List Ptr} (a : Ptr) (r : Request)
      → Chain h p xs
      → a ∉ xs
      → Chain (update h a r) p xs
  unfolding update
  Chain-update a r c out = Chain-frame c (ground arith)

  -- A chain that is not empty starts at its first address.
  pub Chain-head : {p a : Ptr} {xs : List Ptr} → Chain h p (a ∷ xs) → (p ≡ a) × (p ≢ null)
  Chain-head (cons ne e out c) = (refl, ne)

  pub Chain-tail :
      {p a : Ptr} {xs : List Ptr} → Chain h p (a ∷ xs) → Chain h (h a).next xs × (a ∉ xs)
  Chain-tail (cons {xs} ne e out c) = (rw e c, out)
