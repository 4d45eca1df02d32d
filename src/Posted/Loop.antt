-- ===== src/Posted/Loop.antt =====
-- The loop of `progress_posted_list` in src/mp.c, on the posted list of one client.
use libmp.Base.{
  ◌≡◌, refl, ◌≢◌, ◌∙◌, ap, sym, ℕ, true, false, List, ◌∷◌, arith, ◌==◌, update, update_self,
  update_ne, update-related, ◌⊎◌, inl, inr, Bool-cases,
}
use libmp.Types.{Ptr, null, Request, MpFlow, MpState, pending, is_prepared, is_tx}
use libmp.Env.{Env}
use libmp.Machine.{State}
use libmp.Machine.Outcome.{Returns, returns, Returns-bind}
use libmp.Machine.Heap.{Chain-head, Chain-frame}
use libmp.Posted.{post_first}
use libmp.Posted.Links.{Links-frame, SameRequest}
use libmp.Posted.Queue.{Queue}
use libmp.Posted.Delink.{SameTrigger, delink-Queue}

-- The requests differ in their status and their links only.
abbrev pub Moves : Request → Request → Type 0
Moves q r = r ≡ record q { status = r.status; next = r.next; prev = r.prev }

SameRequest-Moves : (q r : Request) → SameRequest q r → Moves q r
SameRequest-Moves q r e =
    e
    ∙ ap {A = MpState} {B = Request}
        (λ state. record q { status = state; next = r.next; prev = r.prev })
        (sym (ap (λ (x : Request). x.status) e))

pub Moves-trans : (q r t : Request) → Moves q r → Moves r t → Moves q t
Moves-trans q r t e e' =
    e'
    ∙ ap {A = Request} {B = Request}
        (λ x. record x { status = t.status; next = t.next; prev = t.prev }) e

-- `x` has been posted: it is pending, and no other request has another status.
abbrev pub PostedHead : {W : Type 0} → Ptr → State W → State W → Type 0
PostedHead x s t =
    ((t.reqs x).status ≡ pending)
    × ((a : Ptr) → a ≢ x → (t.reqs a).status ≡ (s.reqs a).status)
    × ((a : Ptr) → Moves (s.reqs a) (t.reqs a))

-- a prepared request of the transmit flow
abbrev pub Postable : (Ptr → Request) → Ptr → Type 0
Postable h a = (is_prepared (h a).status ≡ true) × (is_tx (h a).type ≡ true)

Queue-status :
    {W : Type 0} (client : ℕ) (flow : MpFlow) (xs : List Ptr) (s : State W) (x : Ptr)
    (state : MpState)
    → Queue client flow xs s
    → Queue client flow xs
        (record s { reqs = update s.reqs x (record (s.reqs x) { status = state }) })
Queue-status client flow xs s x state q = record {
  chain =
      Chain-frame q.chain
        λ a i. update-related (λ q r. r.next ≡ q.next) (λ q. refl) s.reqs x _ refl a;
  links =
      Links-frame s.reqs (update s.reqs x (record (s.reqs x) { status = state })) null xs q.links
        λ a i. update-related (λ q r. r.prev ≡ q.prev) (λ q. refl) s.reqs x _ refl a;
  last = q.last;
}

posted_head :
    {W : Type 0} (x : Ptr) (s t : State W)
    → ((a : Ptr)
        → SameRequest (update s.reqs x (record (s.reqs x) { status = pending }) a) (t.reqs a))
    → PostedHead x s t
posted_head x s t same =
    let g : Ptr → Request = update s.reqs x (record (s.reqs x) { status = pending }) in
    (
      ap (λ (r : Request). r.status) (same x)
          ∙ ap (λ (r : Request). r.status) (update_self s.reqs x _),
      λ a other.
          ap (λ (r : Request). r.status) (same a)
          ∙ ap (λ (r : Request). r.status) (update_ne s.reqs x a _ other),
      λ a.
          Moves-trans (s.reqs a) (g a) (t.reqs a)
            (update-related Moves (λ q. refl) s.reqs x _ refl a)
            (SameRequest-Moves (g a) (t.reqs a) (same a)),
    )

module _ {W : Type 0} (env : Env W) (client : ℕ) (flow : MpFlow) where
  -- what the body of the loop does with the first request
  pub post_first-Queue :
      (x : Ptr) (xs : List Ptr) (s : State W)
      → Queue client flow (x ∷ xs) s
      → Postable s.reqs x
      → Returns
          (λ code t.
            SameTrigger client s t
            × (((code ≡ 0) × Queue client flow xs t × PostedHead x s t)
                ⊎ ((code ≢ 0) × Queue client flow (x ∷ xs) t × (t.reqs ≡ s.reqs))))
          (post_first env client flow x s)
  unfolding post_first
  post_first-Queue x xs s q (ready, tx) =
      let ne : (x == null) ≡ false = ground (arith, Chain-head q.chain) in
      rw (ne, ready, tx)
        (elim (Bool-cases ((env.gds_post_send client (s.reqs x).sr s.world).0 == 0)) [
          | inr e ↦ rw e (returns (refl, inr (ground arith, q, refl)))
          | inl e ↦
              rw (e, ne)
                (Returns-bind
                  (delink-Queue client flow x xs _
                    (Queue-status client flow (x ∷ xs) s x pending q))
                  λ _ t (q', same, trigger).
                    returns (trigger, inl (refl, q', posted_head x s t same)))
        ])
