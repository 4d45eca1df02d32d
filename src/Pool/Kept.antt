-- ===== src/Pool/Kept.antt =====
-- What `get_request` of src/mp.c leaves in the memory of requests, those in the pool too.
use libmp.Base.{
  Bool, ℕ, zero, suc, ◌+◌, ◌≡◌, refl, ◌∙◌, true, false, update-related, Bool-cases, inl, inr, ◌==◌,
}
use libmp.Types.{Ptr, null, Request, SendWr, RecvWr}
use libmp.Env.{Env}
use libmp.Machine.{State}
use libmp.Machine.Outcome.{Ensures, done, faults, Ensures-bind, Ensures-mono}
use libmp.Pool.{link_requests, set_region, pop_free, allocate_requests, refill, get_request}

-- the stream, the work requests and the information for GDSync
abbrev pub payload : Request → ℕ × SendWr × RecvWr × ℕ × ℕ
payload r = (r.stream, r.sr, r.rr, r.gds_send_info, r.gds_wait_info)

-- All requests keep it.
abbrev Keeps : {W : Type 0} → State W → State W → Type 0
Keeps s t = (a : Ptr) → payload (t.reqs a) ≡ payload (s.reqs a)

link_requests-payload :
    (n : ℕ) (p : Ptr) (h : Ptr → Request) (a : Ptr)
    → payload (link_requests n p h a) ≡ payload (h a)
unfolding link_requests
link_requests-payload zero p h a =
    update-related (λ q r. payload r ≡ payload q) (λ q. refl) h p _ refl a
link_requests-payload (suc n) p h a =
    link_requests-payload n (p + 1) _ a
    ∙ update-related (λ q r. payload r ≡ payload q) (λ q. refl) h p _ refl a

module _ {W : Type 0} where
  set_region-Keeps :
      (limit : ℕ) (given : Bool) (s : State W)
      → Ensures (λ _ t. Keeps s t) Unit (set_region limit given s)
  set_region-Keeps limit false s = faults tt
  set_region-Keeps limit true s = done λ a. link_requests-payload _ s.brk s.reqs a

  pop_free-Keeps : (s : State W) → Ensures (λ _ t. Keeps s t) Unit (pop_free s)
  unfolding pop_free
  pop_free-Keeps s = elim (Bool-cases (s.free_list == null)) [
    | inl e ↦ rw e (faults tt)
    | inr e ↦
        rw (e, e)
          (done λ a.
            update-related (λ q r. payload r ≡ payload q) (λ q. refl) s.reqs s.free_list _ refl a)
  ]

module _ {W : Type 0} (env : Env W) where
  allocate_requests-Keeps :
      (s : State W) → Ensures (λ _ t. Keeps s t) Unit (allocate_requests env s)
  unfolding allocate_requests
  allocate_requests-Keeps s = elim (Bool-cases (s.free_list == null)) [
    | inr e ↦ rw e (faults tt)
    | inl e ↦ rw e (elim (Bool-cases (env.malloc s.world).0) [
      | inr refused ↦ rw refused (faults tt)
      | inl given ↦ rw given (set_region-Keeps _ _ _)
    ])
  ]

  refill-Keeps : (s : State W) → Ensures (λ _ t. Keeps s t) Unit (refill env s)
  unfolding refill
  refill-Keeps s = elim (Bool-cases (s.free_list == null)) [
    | inr e ↦ rw e (done λ a. refl)
    | inl e ↦ rw e (
        Ensures-bind (allocate_requests-Keeps s) (λ f. f)
          λ _ t keeps. elim (Bool-cases (t.free_list == null)) [
            | inl none_free ↦ rw none_free (faults tt)
            | inr some_free ↦ rw some_free (done keeps)
          ])
  ]

  pub get_request-Keeps :
      (s : State W)
      → Ensures
          (λ _ t. (a : Ptr) → payload (t.reqs a) ≡ payload (s.reqs a))
          Unit
          (get_request env s)
  unfolding get_request
  get_request-Keeps s =
      Ensures-bind (refill-Keeps s) (λ f. f)
        λ _ t keeps. Ensures-mono (pop_free-Keeps t) (λ f. f) λ _ u kept a. kept a ∙ keeps a
