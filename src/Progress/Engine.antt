-- ===== src/Progress/Engine.antt =====
-- A whole call of the progress functions of src/mp.c, outside the event-synchronous mode.
use libmp.Base.{
  ℕ, zero, suc, ◌+◌, ◌<◌, ◌≡◌, refl, ◌∙◌, ap, sym, subst, true, false, List, [], ◌∷◌, arith, ◌==◌,
  update, update_self, update_ne, Bool-cases, ◌⊎◌, inl, inr, min,
}
use libmp.Types.{
  Code, Ptr, null, Request, Client, MpFlow, tx_flow, rx_flow, at_flow, Wc, Polled, poll_error,
  entries,
}
use libmp.Env.{Env}
use libmp.Machine.{State, M, ok, for_clients}
use libmp.Machine.Outcome.{Ensures, done, Ensures-bind}
use libmp.Posted.{progress_posted_list}
use libmp.Progress.{
  client_can_poll, can_poll_loop, complete_all, handle_polled, poll_client, mp_progress_single_flow,
  progress_flows,
}
use libmp.Progress.Complete.{in_flight, completed, Seen, complete_entry-Seen}

-- what progress does to a request: nothing, or it completes one that is in flight
pub data Evolves : Request → Request → Type 0 where
  same : {r : Request} → Evolves r r
  finishes : {r : Request} → in_flight r.status ≡ true → Evolves r (completed r)

Evolves-completed :
    {q r : Request} → Evolves q r → in_flight r.status ≡ true → Evolves q (completed r)
Evolves-completed same e = finishes e
Evolves-completed (finishes f) e = absurd (ground arith)

-- No waited request is tracked. `client_track_waited_stream_req` has no caller, so this holds from
-- the start on.
abbrev pub NoWaited : {W : Type 0} → State W → Type 0
NoWaited s = (i : ℕ) (flow : MpFlow) → at_flow (s.clients i).waited_stream_req flow ≡ null

-- The client `d` is `c` but for the last done id.
abbrev pub SameClient : Client → Client → Type 0
SameClient c d = d ≡ record c { last_done_id = d.last_done_id }

-- `t` follows `s` by progress: requests evolve, clients change at most their last done id.
abbrev pub Progressed : {W : Type 0} → State W → State W → Type 0
Progressed s t = record {
  reqs : (a : Ptr) → Evolves (s.reqs a) (t.reqs a);
  clients : (i : ℕ) → SameClient (s.clients i) (t.clients i);
  pool : (t.brk ≡ s.brk) × (t.free_list ≡ s.free_list) × (t.mem_regions ≡ s.mem_regions);
}

pub Progressed-refl : {W : Type 0} (s : State W) → Progressed s s
Progressed-refl s = record { reqs = λ a. same; clients = λ i. refl; pool = (refl, refl, refl) }

Evolves-update :
    (f h : Ptr → Request) (p : Ptr)
    → ((a : Ptr) → Evolves (f a) (h a))
    → in_flight (h p).status ≡ true
    → (a : Ptr) → Evolves (f a) (update h p (completed (h p)) a)
Evolves-update f h p old flying a = elim (Bool-cases (a == p)) [
  | inl e ↦
      let eq : p ≡ a = ground arith in
      subst (λ b. Evolves (f b) (update h p (completed (h p)) b)) eq
        (subst (λ r. Evolves (f p) r) (sym (update_self h p _)) (Evolves-completed (old p) flying))
  | inr e ↦ subst (λ r. Evolves (f a) r) (sym (update_ne h p a _ (ground arith))) (old a)
]

SameClient-update :
    (f g : ℕ → Client) (client id : ℕ)
    → ((i : ℕ) → SameClient (f i) (g i))
    → (i : ℕ) → SameClient (f i) (update g client (record (g client) { last_done_id = id }) i)
SameClient-update f g client id old i = elim (Bool-cases (i == client)) [
  | inl e ↦
      let eq : client ≡ i = ground arith in
      subst (λ j. SameClient (f j) (update g client (record (g client) { last_done_id = id }) j)) eq
        (simp update_self
          (ap {A = Client} {B = Client} (λ c. record c { last_done_id = id }) (old client)))
  | inr e ↦ subst (λ c. SameClient (f i) c) (sym (update_ne g client i _ (ground arith))) (old i)
]

-- A loop over the clients keeps what its body keeps.
pub for_clients-Ensures :
    {W F : Type 0} (J : State W → Type 0) (Q : Code → Type 0) (body : ℕ → M W Code)
    → Q 0
    → ((i : ℕ) (s : State W) → J s → Ensures (λ ret t. Q ret × J t) F (body i s))
    → (n i : ℕ) (s : State W) → J s
    → Ensures (λ ret t. Q ret × J t) F (for_clients n i body s)
unfolding for_clients
for_clients-Ensures J Q body q keeps zero i s j = done (q, j)
for_clients-Ensures J Q body q keeps (suc n) i s j =
    Ensures-bind (keeps i s j) (λ f. f)
      λ ret t (q', j'). elim (Bool-cases (ret == 0)) [
        | inl e ↦ rw e (for_clients-Ensures J Q body q keeps n (i + 1) t j')
        | inr e ↦ rw e (done (q', j'))
      ]

can_poll_loop-null :
    {W : Type 0} (fuel client : ℕ) (flow : MpFlow) (ret : ℕ) (s : State W)
    → 0 < fuel
    → can_poll_loop fuel client flow null ret s ≡ ok (ret, null) s
unfolding can_poll_loop
can_poll_loop-null zero client flow ret s pos = absurd (omega arith)
can_poll_loop-null (suc fuel) client flow ret s pos = refl

-- a code of the progress functions
abbrev pub ProgressCode : Code → Type 0
ProgressCode ret = (ret ≡ 0) ⊎ (ret ≡ 1)

module _ {W : Type 0} (env : Env W) (no_events : env.config.use_event_sync ≡ false)
    (s : State W) where
  open env use {config}

  Seen-Progressed :
      (client : ℕ) (flow : MpFlow) (wc : Wc) (t u : State W)
      → Progressed s t
      → Seen env client flow wc t u
      → Progressed s u
  Seen-Progressed client flow wc t u p (inl (e, eq)) = subst (λ v. Progressed s v) (sym eq) p
  Seen-Progressed client flow wc t u p (inr (flying, reqs, clients, brk, free, regions)) = record {
    reqs = rw reqs (Evolves-update s.reqs t.reqs wc.wr_id p.reqs flying);
    clients = λ i.
        subst (λ c. SameClient (s.clients i) c) (sym (clients i))
          (rw no_events
            (SameClient-update s.clients t.clients client (t.reqs wc.wr_id).id p.clients i));
    pool = (brk ∙ p.pool.0, free ∙ p.pool.1, regions ∙ p.pool.2);
  }

  complete_all-Progressed :
      (client : ℕ) (flow : MpFlow) (wcs : List Wc) (t : State W)
      → Progressed s t
      → Ensures (λ _ u. Progressed s u) Unit (complete_all env client flow wcs t)
  unfolding complete_all
  complete_all-Progressed client flow [] t p = done p
  complete_all-Progressed client flow (wc ∷ wcs) t p =
      Ensures-bind (complete_entry-Seen env client flow wc t) (λ _. tt)
        λ _ u seen.
          complete_all-Progressed client flow wcs u (Seen-Progressed client flow wc t u p seen)

  handle_polled-Progressed :
      (client : ℕ) (flow : MpFlow) (polled : Polled) (t : State W)
      → Progressed s t
      → Ensures
          (λ ret u. ProgressCode ret × Progressed s u)
          Unit
          (handle_polled env client flow polled t)
  handle_polled-Progressed client flow poll_error t p = done (inr refl, p)
  handle_polled-Progressed client flow (entries wcs) t p =
      Ensures-bind (complete_all-Progressed client flow wcs t p) (λ _. tt)
        λ _ u p'. done (inl refl, p')

  -- outside the event-synchronous mode, a client with no waited request
  client_can_poll-none :
      (client : ℕ) (flow : MpFlow) (t : State W)
      → 0 < t.brk
      → at_flow (t.clients client).waited_stream_req flow ≡ null
      → client_can_poll env client flow t ≡ ok config.cq_poll_count t
  unfolding client_can_poll
  client_can_poll-none client flow t pos none_waited =
      rw (no_events, none_waited, can_poll_loop-null t.brk client flow 0 t pos) refl

  progress_posted_list-none :
      (flow : MpFlow) (t : State W) → progress_posted_list env flow t ≡ ok 0 t
  unfolding progress_posted_list
  progress_posted_list-none flow t = rw no_events refl

  module _ (none_waited : NoWaited s) (pos : 0 < s.brk) where
    poll_client-Progressed :
        (flow : MpFlow) (client : ℕ) (t : State W)
        → Progressed s t
        → Ensures (λ ret u. ProgressCode ret × Progressed s u) Unit (poll_client env flow client t)
    unfolding poll_client
    poll_client-Progressed flow client t p =
        let none : at_flow (t.clients client).waited_stream_req flow ≡ null =
          ap (λ (c : Client). at_flow c.waited_stream_req flow) (p.clients client)
          ∙ none_waited client flow in
        rw (client_can_poll-none client flow t (omega (arith, p.pool.0)) none)
          (elim (Bool-cases (min config.cq_poll_count config.cq_poll_count == 0)) [
            | inl e ↦ rw e (done (inl refl, p))
            | inr e ↦ rw e (handle_polled-Progressed client flow _ _ p)
          ])

    pub single_flow-Progressed :
        (flow : MpFlow) (t : State W)
        → Progressed s t
        → Ensures
            (λ ret u. ProgressCode ret × Progressed s u)
            Unit
            (mp_progress_single_flow env flow t)
    unfolding mp_progress_single_flow
    single_flow-Progressed flow t p = rw (progress_posted_list-none flow t) (
        for_clients-Ensures (λ u. Progressed s u) ProgressCode (poll_client env flow) (inl refl)
          (λ i u q. poll_client-Progressed flow i u q) config.client_count 0 t p)

    -- the same for both flows, from `t` on
    pub progress_flows-from :
        (t : State W)
        → Progressed s t
        → Ensures (λ ret u. ProgressCode ret × Progressed s u) Unit (progress_flows env t)
    unfolding progress_flows
    progress_flows-from t p =
        Ensures-bind (single_flow-Progressed tx_flow t p) (λ f. f)
          λ ret u (code, q). elim (Bool-cases (ret == 0)) [
            | inl e ↦ rw e (single_flow-Progressed rx_flow u q)
            | inr e ↦ rw e (done (code, q))
          ]

-- Outside the event-synchronous mode, with no waited request tracked, both flows of progress
-- return 0 or `MP_FAILURE` or fault, and do not run out of fuel. When they return, each request is
-- as it was, or was in flight and is complete with its scatter list freed; clients change at most
-- in the last done id, and the pool does not change.
pub progress_flows-Progressed :
    {W : Type 0} (env : Env W) (s : State W)
    → env.config.use_event_sync ≡ false
    → NoWaited s
    → 0 < s.brk
    → Ensures (λ ret t. ProgressCode ret × Progressed s t) Unit (progress_flows env s)
progress_flows-Progressed env s no_events none_waited pos =
    progress_flows-from env no_events s none_waited pos s (Progressed-refl s)
