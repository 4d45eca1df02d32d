-- ===== src/Posted/Links.antt =====
-- Doubly linked lists of requests: the `prev` pointers, the last request, and a request more at the
-- end.
use libmp.Base.{
  ◌≡◌, refl, ◌≢◌, ◌∙◌, ap, sym, List, [], ◌∷◌, ◌++◌, arith, ◌∈◌, ◌∉◌, has-append, update,
  update_self, update_ne, update-related,
}
use libmp.Types.{Ptr, null, Request}
use libmp.Machine.Heap.{Chain, nil, cons}

-- the last of `xs`, or `p` if there is none
abbrev pub last_of : Ptr → List Ptr → Ptr
last_of p [] = p
last_of p (x ∷ xs) = last_of x xs

pub last_of-snoc : (q p : Ptr) (xs : List Ptr) → last_of q (xs ++ p ∷ []) ≡ p
last_of-snoc q p [] = refl
last_of-snoc q p (x ∷ xs) = last_of-snoc x p xs

-- The `prev` pointers of `xs` lead back, from the first one to `before`.
abbrev pub Links : (Ptr → Request) → (before : Ptr) → List Ptr → Type 0
Links h before [] = Unit
Links h before (x ∷ xs) = ((h x).prev ≡ before) × Links h x xs

pub last_of-In : (x : Ptr) (xs : List Ptr) → last_of x xs ∈ x ∷ xs
last_of-In x [] = ground arith
last_of-In x (y ∷ ys) = ground (arith, last_of-In y ys)

module _ (h g : Ptr → Request) where
  pub Links-frame :
      (before : Ptr) (xs : List Ptr)
      → Links h before xs
      → ((a : Ptr) → a ∈ xs → (g a).prev ≡ (h a).prev)
      → Links g before xs
  Links-frame before [] l same = tt
  Links-frame before (x ∷ xs) (e, l) same =
      (same x (ground arith) ∙ e, Links-frame x xs l λ a i. same a (ground arith))

  pub Links-snoc :
      (before p : Ptr) (xs : List Ptr)
      → Links h before xs
      → ((a : Ptr) → a ∈ xs → (g a).prev ≡ (h a).prev)
      → (g p).prev ≡ last_of before xs
      → Links g before (xs ++ p ∷ [])
  Links-snoc before p [] l same e = (e, tt)
  Links-snoc before p (x ∷ xs) (e', l) same e =
      (same x (ground arith) ∙ e', Links-snoc x p xs l (λ a i. same a (ground arith)) e)

  -- The last link leads to `p`, `p` ends the list, and all other links are kept.
  pub Chain-snoc :
      {q : Ptr} (x p : Ptr) (xs : List Ptr)
      → Chain h q (x ∷ xs)
      → p ∉ x ∷ xs
      → p ≢ null
      → (g p).next ≡ null
      → (g (last_of x xs)).next ≡ p
      → ((a : Ptr) → a ∈ x ∷ xs → a ≢ last_of x xs → (g a).next ≡ (h a).next)
      → Chain g q (x ∷ xs ++ p ∷ [])
  Chain-snoc x p [] (cons ne e out nil) apart pne last to same =
      cons ne to (ground arith) (cons pne last (ground arith) nil)
  Chain-snoc x p (y ∷ ys) (cons ne e out c) apart pne last to same =
      cons ne (same x (ground arith) (ground (arith, last_of-In y ys)) ∙ e)
        (ground (arith, has-append x (y ∷ ys) (p ∷ [])))
        (Chain-snoc y p ys c (ground arith) pne last to λ a i. same a (ground arith))

pub Chain-ne :
    {h : Ptr → Request} {q : Ptr} (xs : List Ptr) → Chain h q xs → (a : Ptr) → a ∈ xs → a ≢ null
Chain-ne [] nil a i = absurd (ground arith)
Chain-ne (x ∷ xs) (cons ne e out c) a i = ground (arith, Chain-ne xs c a)

-- the heap with `p` linked behind `last`
abbrev pub linked : (Ptr → Request) → (last p : Ptr) → Ptr → Request
linked h last p =
    let g : Ptr → Request = update h last (record (h last) { next = p }) in
    update g p (record (g p) { prev = last })

-- The requests differ in their links only.
abbrev pub SameRequest : Request → Request → Type 0
SameRequest q r = r ≡ record q { next = r.next; prev = r.prev }

pub SameRequest-trans : (q r t : Request) → SameRequest q r → SameRequest r t → SameRequest q t
SameRequest-trans q r t e e' =
    e' ∙ ap {A = Request} {B = Request} (λ x. record x { next = t.next; prev = t.prev }) e

module _ (h : Ptr → Request) (last p : Ptr) where
  abbrev first : Ptr → Request
  first = update h last (record (h last) { next = p })

  pub linked-next :
      p ≢ last
      → ((linked h last p last).next ≡ p)
        × ((a : Ptr) → a ≢ last → (linked h last p a).next ≡ (h a).next)
  linked-next ne = (
    ap (λ (r : Request). r.next) (update_ne first p last _ (λ e. ne (sym e)))
        ∙ ap (λ (r : Request). r.next) (update_self h last _),
    λ a other.
        update-related (λ q r. r.next ≡ q.next) (λ q. refl) first p _ refl a
        ∙ ap (λ (r : Request). r.next) (update_ne h last a _ other),
  )

  pub linked-prev :
      ((linked h last p p).prev ≡ last)
      × ((a : Ptr) → a ≢ p → (linked h last p a).prev ≡ (h a).prev)
  linked-prev = (
    ap (λ (r : Request). r.prev) (update_self first p _),
    λ a other.
        ap (λ (r : Request). r.prev) (update_ne first p a _ other)
        ∙ update-related (λ q r. r.prev ≡ q.prev) (λ q. refl) h last _ refl a,
  )

  pub linked-same : (a : Ptr) → SameRequest (h a) (linked h last p a)
  linked-same a =
      SameRequest-trans (h a) (first a) (linked h last p a)
        (update-related SameRequest (λ q. refl) h last _ refl a)
        (update-related SameRequest (λ q. refl) first p _ refl a)
