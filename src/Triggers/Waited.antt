-- ===== src/Triggers/Waited.antt =====
-- The batch of waits that `mp_wait_all_on_stream` of src/mp_peersync.c builds in the
-- event-synchronous mode.
use libmp.Base.{
  ℕ, ◌<◌, ◌≤◌, ◌≡◌, ◌≢◌, refl, subst, true, List, [], ◌∷◌, arith, ◌==◌, ltb, update-related,
  Bool-cases, ◌⊎◌, inl, inr, Option, none, some, All,
}
use libmp.Types.{Ptr, null, Request, MpFlow, Desc, is_live_type, flow_of}
use libmp.Env.{Env}
use libmp.Machine.{State, ◌>>=◌, index_of, mp_type_to_flow}
use libmp.Machine.Outcome.{Ensures, done, faults, Ensures-bind, Ensures-mono}
use libmp.Stream.{collect, block_on, wait_id, wait_id_checked, is_set, at_most_pending}
use libmp.Triggers.{same_flow}
use libmp.Triggers.Tracked.{
  Climbing-wait, tracked-raised-le, tracked, Climbing, SameKey, Later, Later-refl, Later-trans,
  tracked-raised,
}

same_flow_refl : (flow : MpFlow) → same_flow flow flow ≡ true
same_flow_refl MpFlow.tx_flow = refl
same_flow_refl MpFlow.rx_flow = refl

-- A stream waits for the id of `r`, or a later one, at the word of its client and flow.
abbrev pub Awaited : {W : Type 0} → Env W → Request → State W → Type 0
Awaited env r u =
    (i : ℕ) × (env.config.client_index r.peer ≡ some i) × (r.id ≤ tracked u i (flow_of r.type))

module _ {W : Type 0} (env : Env W) (s : State W) where
  open env use {config}

  -- the batch from `t` to `u`
  abbrev Step : State W → List Desc → State W → Type 0
  Step t descs u = Climbing s descs u × Later t u

  block_on-Step :
      (client : ℕ) (flow : MpFlow) (p : Ptr) (id : ℕ) (descs : List Desc) (t : State W)
      → Climbing s descs t
      → Ensures
          (λ batch u. Step t batch.1 u × (id ≤ tracked u client flow))
          Unit
          (block_on env client flow flow p id descs t)
  unfolding block_on
  block_on-Step client flow p id descs t climbing =
      elim (Bool-cases (ltb (tracked t client flow) id)) [
        | inr e ↦ rw e (done ((climbing, Later-refl t), ground arith))
        | inl e ↦ rw e (elim (Bool-cases (p == null)) [
          | inl e' ↦ rw e' (faults tt)
          | inr e' ↦
              let lt : tracked t client flow < id = ground arith in
              let self : client == client ≡ true = ground arith in
              rw e' (
                done (
                  (
                    Climbing-wait s t descs client flow id climbing lt,
                    (
                      λ a.
                          update-related SameKey (λ r. (refl, refl, refl)) t.reqs p _
                            (refl, refl, refl) a,
                      tracked-raised-le t client flow id lt,
                    ),
                  ),
                  rw
                      (
                        tracked-raised t.clients client flow id client flow,
                        same_flow_refl flow,
                        self,
                      )
                      (omega arith),
                ))
        ])
      ]

  Awaited-later :
      (q r : Request) (t u : State W)
      → SameKey q r
      → ((i : ℕ) (flow : MpFlow) → tracked t i flow ≤ tracked u i flow)
      → Awaited env r t
      → Awaited env q u
  Awaited-later q r t u (id, peer, type) up (i, e, le) = (
    i,
    subst (λ x. config.client_index x ≡ some i) peer e,
    subst (λ x. x ≤ tracked u i (flow_of q.type)) id
        (subst (λ x. r.id ≤ tracked u i (flow_of x)) type (omega (arith, up i (flow_of r.type)))),
  )

  Awaited-All :
      (reqs : List Ptr) (t u v : State W)
      → ((a : Ptr) → SameKey (t.reqs a) (u.reqs a))
      → All (λ p. Awaited env (u.reqs p) v) reqs
      → All (λ p. Awaited env (t.reqs p) v) reqs
  Awaited-All [] t u v keys all = tt
  Awaited-All (p ∷ reqs) t u v keys (awaited, all) = (
    Awaited-later (t.reqs p) (u.reqs p) v v (keys p) (λ i flow. omega arith) awaited,
    Awaited-All reqs t u v keys all,
  )

  -- a wait for `r`, whose client is `o`
  indexed-Step :
      (o : Option ℕ) (r : Request) (p : Ptr) (descs : List Desc) (t : State W)
      → config.client_index r.peer ≡ o
      → Climbing s descs t
      → Ensures
          (λ batch u. Step t batch.1 u × Awaited env r u)
          Unit
          ((do i ← index_of o; flow ← mp_type_to_flow r.type; block_on env i flow flow p r.id descs)
            t)
  indexed-Step none r p descs t e climbing = faults tt
  indexed-Step (some i) r p descs t e climbing = elim (Bool-cases (is_live_type r.type)) [
    | inr dead ↦ rw dead (faults tt)
    | inl live ↦ rw live (
        Ensures-mono (block_on-Step i (flow_of r.type) p r.id descs t climbing) (λ f. f)
          λ batch u (step, le). (step, (i, e, le)))
  ]

  wait_id_checked-Step :
      (p : Ptr) (descs : List Desc) (t : State W)
      → Climbing s descs t
      → Ensures
          (λ batch u. Step t batch.1 u × Awaited env (t.reqs p) u)
          Unit
          (wait_id_checked env p descs t)
  unfolding wait_id_checked wait_id
  wait_id_checked-Step p descs t climbing =
      let r : Request = t.reqs p in
      elim (Bool-cases (p == null)) [
        | inl e ↦ rw e (faults tt)
        | inr e ↦ rw e (elim (Bool-cases (is_set r.type)) [
          | inr unset ↦ rw unset (faults tt)
          | inl set ↦ rw set (elim (Bool-cases (at_most_pending r.status)) [
            | inr late ↦ rw late (faults tt)
            | inl early ↦
                rw (early, e) (indexed-Step (config.client_index r.peer) r p descs t refl climbing)
          ])
        ])
      ]

  collect-Step :
      (reqs : List Ptr) (descs : List Desc) (t : State W)
      → Climbing s descs t
      → Ensures
          (λ batch u. Step t batch.1 u × ((batch.0 ≢ 0) ⊎ All (λ p. Awaited env (t.reqs p) u) reqs))
          Unit
          (collect (wait_id_checked env) reqs descs t)
  unfolding collect
  collect-Step [] descs t climbing = done ((climbing, Later-refl t), inr tt)
  collect-Step (p ∷ reqs) descs t climbing =
      Ensures-bind (wait_id_checked-Step p descs t climbing) (λ f. f)
        λ (ret, descs') u ((climbing', (keys, up)), awaited). elim (Bool-cases (ret == 0)) [
          | inr e ↦ rw e (done ((climbing', (keys, up)), inl (ground arith)))
          | inl e ↦ rw e (
              Ensures-mono (collect-Step reqs descs' u climbing') (λ f. f)
                λ batch v ((climbing'', later), either). (
                  (climbing'', Later-trans t u v (keys, up) later),
                  elim either [
                    | inl failed ↦ inl failed
                    | inr all ↦ inr (
                      Awaited-later (t.reqs p) (t.reqs p) u v (refl, refl, refl) later.1 awaited,
                      Awaited-All reqs t u v keys all,
                    )
                  ],
                ))
        ]

-- In the event-synchronous mode, the batch that mp_wait_all_on_stream builds from any requests
-- waits at each tracked word for ids that ascend strictly, from above the last id waited for there
-- before, and the last of them is the last id waited for after; this holds whether or not an error
-- ends the loop. If the code is 0, the last id waited for at the word of each request's client and
-- flow is at least the id that the request had. The
-- loop returns or faults.
pub collect-Climbing :
    {W : Type 0} (env : Env W) (reqs : List Ptr) (s : State W)
    → Ensures
        (λ batch t.
          Climbing s batch.1 t × ((batch.0 ≢ 0) ⊎ All (λ p. Awaited env (s.reqs p) t) reqs))
        Unit
        (collect (wait_id_checked env) reqs [] s)
collect-Climbing env reqs s =
    Ensures-mono (collect-Step env s reqs [] s λ i flow. refl) (λ f. f)
      λ batch t ((climbing, later), either). (climbing, either)
