-- ===== src/Posted/Delink.antt =====
-- How `progress_posted_list` of src/mp.c unlinks the first request of a posted list.
use libmp.Base.{
  ◌≡◌, refl, ◌≢◌, ◌∙◌, ap, subst, ℕ, true, false, List, [], ◌∷◌, arith, ◌==◌, ◌∉◌, update,
  update_self, update_ne, update-related,
}
use libmp.Types.{Ptr, null, Request, Client, MpFlow}
use libmp.Machine.{State}
use libmp.Machine.Outcome.{Returns, returns}
use libmp.Machine.Heap.{Chain, nil, Chain-nil, Chain-head, Chain-tail, Chain-frame}
use libmp.Posted.{delink}
use libmp.Posted.Links.{last_of, Links, last_of-In, Links-frame, SameRequest, SameRequest-trans}
use libmp.Posted.Queue.{Queue, SameButLinks, at-set}

-- the heap with `x` unlinked from `y` behind it
abbrev pub unlinked : (Ptr → Request) → (x y : Ptr) → Ptr → Request
unlinked h x y =
    let g : Ptr → Request = update h y (record (h y) { prev = null }) in
    update g x (record (g x) { prev = null; next = null })

module _ (h : Ptr → Request) (x y : Ptr) where
  abbrev headless : Ptr → Request
  headless = update h y (record (h y) { prev = null })

  unlinked-next : (a : Ptr) → a ≢ x → (unlinked h x y a).next ≡ (h a).next
  unlinked-next a ne =
      ap (λ (r : Request). r.next) (update_ne headless x a _ ne)
      ∙ update-related (λ q r. r.next ≡ q.next) (λ q. refl) h y _ refl a

  unlinked-prev : (a : Ptr) → a ≢ x → a ≢ y → (unlinked h x y a).prev ≡ (h a).prev
  unlinked-prev a ne ne' =
      ap (λ (r : Request). r.prev) (update_ne headless x a _ ne ∙ update_ne h y a _ ne')

  unlinked-Chain :
      (ys : List Ptr) → Chain h y (y ∷ ys) → x ∉ y ∷ ys → Chain (unlinked h x y) y (y ∷ ys)
  unlinked-Chain ys c out = Chain-frame c λ a i. unlinked-next a (ground arith)

  unlinked-Links :
      (ys : List Ptr) → Links h y ys → y ∉ ys → x ∉ y ∷ ys → Links (unlinked h x y) null (y ∷ ys)
  unlinked-Links ys l apart out = (
    ap (λ (r : Request). r.prev) (update_ne headless x y _ (ground arith) ∙ update_self h y _),
    Links-frame h (unlinked h x y) y ys l λ a i. unlinked-prev a (ground arith) (ground arith),
  )

  unlinked-same : (a : Ptr) → SameRequest (h a) (unlinked h x y a)
  unlinked-same a =
      SameRequest-trans (h a) (headless a) (unlinked h x y a)
        (update-related SameRequest (λ q. refl) h y _ refl a)
        (update-related SameRequest (λ q. refl) headless x _ refl a)

-- The ids that the client's stream has reached are the same.
abbrev pub SameTrigger : {W : Type 0} → ℕ → State W → State W → Type 0
SameTrigger client s t = (t.clients client).last_trigger_id ≡ (s.clients client).last_trigger_id

module _ {W : Type 0} where
  delink-last :
      (client : ℕ) (flow : MpFlow) (x : Ptr) (s : State W)
      → Queue client flow (x ∷ []) s
      → Returns
          (λ _ t. Queue client flow [] t × SameButLinks s t × SameTrigger client s t)
          (delink client flow x s)
  unfolding delink
  delink-last client flow x s q =
      let (head, nz) = Chain-head q.chain in
      let (c, out) = Chain-tail q.chain in
      let ne : (x == null) ≡ false = ground (arith, head, nz) in
      let next : (s.reqs x).next ≡ null = Chain-nil c in
      let prev : (s.reqs x).prev ≡ null = q.links.0 in
      let e : (x == x) ≡ true = ground arith in
      rw (ne, next, prev, head, q.last, e, ne)
        (returns (
          simp (update_self, at-set) (record { chain = nil; links = tt; last = refl }),
          update-related SameRequest (λ r. refl) s.reqs x _ refl,
          ap (λ (c : Client). c.last_trigger_id) (update_self s.clients client _),
        ))

  delink-head :
      (client : ℕ) (flow : MpFlow) (x y : Ptr) (ys : List Ptr) (s : State W)
      → Queue client flow (x ∷ y ∷ ys) s
      → Returns
          (λ _ t. Queue client flow (y ∷ ys) t × SameButLinks s t × SameTrigger client s t)
          (delink client flow x s)
  unfolding delink
  delink-head client flow x y ys s q =
      let (head, nz) = Chain-head q.chain in
      let (c, out) = Chain-tail q.chain in
      let (next, ynz) = Chain-head c in
      let ne : (x == null) ≡ false = ground (arith, head, nz) in
      let yne : (y == null) ≡ false = ground (arith, next, ynz) in
      let prev : (s.reqs x).prev ≡ null = q.links.0 in
      let e : (x == x) ≡ true = ground arith in
      let e' : (last_of y ys == x) ≡ false = ground (arith, last_of-In y ys) in
      rw (ne, next, yne, yne, prev, head, q.last, e, e', ne)
        (returns (
          simp (update_self, at-set)
              (record {
                chain =
                    unlinked-Chain s.reqs x y ys (subst (λ a. Chain s.reqs a (y ∷ ys)) next c) out;
                links = unlinked-Links s.reqs x y ys q.links.1.1 (Chain-tail c).1 out;
                last = refl;
              }),
          unlinked-same s.reqs x y,
          ap (λ (c : Client). c.last_trigger_id) (update_self s.clients client _),
        ))

  -- the first request off the list
  pub delink-Queue :
      (client : ℕ) (flow : MpFlow) (x : Ptr) (xs : List Ptr) (s : State W)
      → Queue client flow (x ∷ xs) s
      → Returns
          (λ _ t. Queue client flow xs t × SameButLinks s t × SameTrigger client s t)
          (delink client flow x s)
  delink-Queue client flow x [] s q = delink-last client flow x s q
  delink-Queue client flow x (y ∷ ys) s q = delink-head client flow x y ys s q
