-- ===== src/Init/Queues.antt =====
-- The loops over the peers in `mp_init` of src/mp.c, each as a whole.
use libmp.Base.{
  true, false, ℕ, ◌+◌, ◌<◌, ◌≡◌, ◌≢◌, refl, ◌∙◌, ap, sym, subst, Bool, Option, none, some, List, [],
  ◌∷◌, ◌++◌, arith, ◌==◌, ltb, ◌∉◌, update, update_self, update_ne, Bool-cases, Option-cases, inl,
  inr, Distinct,
}
use mathlib.Core.List.{append-nil}
use libmp.Types.{Code, Ptr, Client}
use libmp.Machine.{State}
use libmp.Machine.Outcome.{Ensures, done, faults, Ensures-bind, Ensures-mono}
use libmp.Pool.FreeList.{FreeList}
use libmp.Init.Settings.{Settings}
use libmp.Init.Verbs.{QpInfo, QpAttr, PortAttr, Host}
use libmp.Init.Connect.{
  qp_init_attr, create_flags, Setup, cleared, init_attr, rtr_attr, rts_attr, info_of, ib_port, ud,
  create_qps, ready_to_receive, set_target, ready_to_send,
}
use libmp.Init.Failures.{
  OnSuccess, OnSuccess-mono, or_failure-Ensures, unless_failure-Ensures, exit_unless-Ensures, stage,
  append-stage, Clients, Clients-mono,
}

-- In the datagram mode the client has the number that came from its peer and an address handle that
-- `ibv_create_ah` gave for that peer; otherwise it is zero but for its rank.
abbrev pub Reached : {W : Type 0} → Host W → (ud : Bool) → QpInfo → (peer : ℕ) → Client → Type 0
Reached {W} host true info peer c =
    (ah : ℕ) × (w : W) × ((host.ibv_create_ah info.lid ib_port w).0 ≡ some ah)
    × (c ≡ record (cleared peer) { ah = ah; qpn = info.qpn })
Reached host false info peer c = c ≡ cleared peer

pub Reached-rank :
    {W : Type 0} (host : Host W) (ud : Bool) (info : QpInfo) (peer : ℕ) (c : Client)
    → Reached host ud info peer c
    → c.mpi_rank ≡ peer
Reached-rank host true info peer c (ah, w, given, same) = ap (λ (d : Client). d.mpi_rank) same
Reached-rank host false info peer c same = ap (λ (d : Client). d.mpi_rank) same

module _ {W : Type 0} (host : Host W) (settings : Settings) (gpu_id : ℕ) (port : PortAttr) where
  abbrev pub is_ud : Bool
  is_ud = ud host settings gpu_id port

  -- what the first loop does
  abbrev pub Created :
      (frees : List Ptr) (peers : List ℕ) → (i : ℕ) → Setup → State W → Setup → State W → Type 0
  Created frees peers i g s r t = record {
    index : Clients (λ peer j. r.client_index peer ≡ some j) peers i;
    others : (peer : ℕ) → peer ∉ peers → r.client_index peer ≡ g.client_index peer;
    moves : r.moves ≡ g.moves ++ stage (λ _. init_attr is_ud) peers i;
    clients : Clients (λ peer j. t.clients j ≡ cleared peer) peers i;
    before : (j : ℕ) → j < i → t.clients j ≡ s.clients j;
    pool : FreeList frees t;
  }

  -- the tables with one more client
  abbrev add_client : (peer i qpn : ℕ) → Setup → Setup
  add_client peer i qpn g = record g {
    client_index = update g.client_index peer (some i);
    qpinfo_all = update g.qpinfo_all peer (info_of port qpn);
    moves = g.moves ++ (i, init_attr is_ud) ∷ [];
  }

  Created-step :
      (frees : List Ptr) (peer : ℕ) (peers : List ℕ) (i qpn : ℕ) (g : Setup) (s u : State W)
      (o : Option Setup) (t : State W)
      → peer ∉ peers
      → u.clients ≡ update s.clients i (cleared peer)
      → OnSuccess (Created frees peers (i + 1) (add_client peer i qpn g) u) o t
      → OnSuccess (Created frees (peer ∷ peers) i g s) o t
  Created-step frees peer peers i qpn g s u none t out moved c = tt
  Created-step frees peer peers i qpn g s u (some r) t out moved c = record {
    index = (c.others peer out ∙ update_self g.client_index peer (some i), c.index);
    others = λ p other.
        c.others p (ground arith) ∙ update_ne g.client_index peer p (some i) (ground arith);
    moves = c.moves ∙ append-stage g.moves (λ _. init_attr is_ud) peer peers i;
    clients = (
      c.before i (omega arith) ∙ ap (λ f. f i) moved ∙ update_self s.clients i (cleared peer),
      c.clients,
    );
    before = λ j lt.
        c.before j (omega arith) ∙ ap (λ f. f j) moved ∙ update_ne s.clients i j _ (omega arith);
    pool = c.pool;
  }

  pub create_qps-Created :
      (frees : List Ptr) (peers : List ℕ) (i : ℕ) (g : Setup) (s : State W)
      → Distinct peers
      → FreeList frees s
      → Ensures
          (λ o t. OnSuccess (Created frees peers i g s) o t)
          Unit
          (create_qps host settings gpu_id port peers i g s)
  unfolding create_qps
  create_qps-Created frees [] i g s distinct fl = done (record {
    index = tt;
    others = λ p o. refl;
    moves = sym (append-nil g.moves);
    clients = tt;
    before = λ j lt. refl;
    pool = fl;
  })
  create_qps-Created frees (peer ∷ peers) i g s (out, distinct) fl =
      elim (Bool-cases (ltb peer host.mpi_comm_size)) [
        | inr e ↦ rw e (faults tt)
        | inl e ↦
            rw e
              (elim (Option-cases
                (host.gds_create_qp i (qp_init_attr settings) gpu_id (create_flags settings)
                  s.world).0) [
                    | inl failed ↦ rw failed (done tt)
                    | inr (qpn, made) ↦
                        let asked : Option ℕ × W =
                          host.gds_create_qp i (qp_init_attr settings) gpu_id
                            (create_flags settings) s.world in
                        let moved : Code × W = host.ibv_modify_qp i (init_attr is_ud) asked.1 in
                        let u : State W = record s {
                          world = moved.1;
                          clients = update s.clients i (cleared peer);
                        } in
                        let g' : Setup = add_client peer i qpn g in
                        rw made (
                          exit_unless-Ensures (moved.0 == 0)
                            (create_qps host settings gpu_id port peers (i + 1) g') u
                            (Ensures-mono (create_qps-Created frees peers (i + 1) g' u distinct fl)
                              (λ f. f)
                              λ o t. Created-step frees peer peers i qpn g s u o t out refl))
                  ])
      ]

  -- what the later loops do to the trace
  abbrev pub Moved :
      (frees : List Ptr) → (attr : ℕ → QpAttr) → List ℕ → ℕ → Setup → Setup → State W → Type 0
  Moved frees attr peers i g r t =
      (r.moves ≡ g.moves ++ stage attr peers i)
      × (r.client_index ≡ g.client_index)
      × (r.qpinfo_all ≡ g.qpinfo_all)
      × FreeList frees t

  abbrev pub rtr_of : Setup → ℕ → QpAttr
  rtr_of g peer = rtr_attr is_ud port (g.qpinfo_all peer)

  -- the trace with one more attribute
  abbrev pub move : ℕ → QpAttr → Setup → Setup
  move i attr g = record g { moves = g.moves ++ (i, attr) ∷ [] }

  Moved-step :
      (frees : List Ptr) (attr : ℕ → QpAttr) (peer : ℕ) (peers : List ℕ) (i : ℕ) (g : Setup)
      (r : Setup) (t : State W)
      → Moved frees attr peers (i + 1) (move i (attr peer) g) r t
      → Moved frees attr (peer ∷ peers) i g r t
  Moved-step frees attr peer peers i g r t (moves, index, infos, fl) =
      (moves ∙ append-stage g.moves attr peer peers i, index, infos, fl)

  pub ready_to_receive-Moved :
      (frees : List Ptr) (peers : List ℕ) (i : ℕ) (g : Setup) (s : State W)
      → FreeList frees s
      → Ensures
          (λ o t.
            OnSuccess (λ r u. Moved frees (rtr_of g) peers i g r u × (u.clients ≡ s.clients)) o t)
          Unit
          (ready_to_receive host settings gpu_id port peers i g s)
  unfolding ready_to_receive
  ready_to_receive-Moved frees [] i g s fl = done ((sym (append-nil g.moves), refl, refl, fl), refl)
  ready_to_receive-Moved frees (peer ∷ peers) i g s fl =
      let attr : QpAttr = rtr_of g peer in
      let moved : Code × W = host.ibv_modify_qp i attr s.world in
      let u : State W = record s { world = moved.1 } in
      elim (Bool-cases (ltb peer host.mpi_comm_size)) [
        | inr e ↦ rw e (faults tt)
        | inl e ↦ rw e (
            unless_failure-Ensures (moved.0 == 0)
              (ready_to_receive host settings gpu_id port peers (i + 1) (move i attr g)) u
              λ good.
                Ensures-mono (ready_to_receive-Moved frees peers (i + 1) (move i attr g) u fl)
                  (λ f. f)
                  λ o t.
                    OnSuccess-mono _ _ o t λ r (after, same).
                      (Moved-step frees (rtr_of g) peer peers i g r t after, same))
      ]

  set_target-Reached :
      (frees : List Ptr) (peer i : ℕ) (info : QpInfo) (s : State W)
      → s.clients i ≡ cleared peer
      → FreeList frees s
      → Ensures
          (λ o t.
            OnSuccess
              (λ _ u.
                Reached host is_ud info peer (u.clients i)
                × ((j : ℕ) → j ≢ i → u.clients j ≡ s.clients j)
                × FreeList frees u)
              o
              t)
          Unit
          (set_target host settings gpu_id port i info s)
  unfolding set_target
  set_target-Reached frees peer i info s same fl = elim (Bool-cases is_ud) [
    | inr rc ↦ simp rc (done (same, (λ j ne. refl), fl))
    | inl datagram ↦
        simp datagram (elim (Option-cases (host.ibv_create_ah info.lid ib_port s.world).0) [
          | inl refused ↦ rw refused (done tt)
          | inr (ah, given) ↦ rw given (
              done (
                (
                  ah,
                  s.world,
                  given,
                  update_self s.clients i _
                      ∙ ap {A = Client} {B = Client} (λ c. record c { ah = ah; qpn = info.qpn })
                          same,
                ),
                (λ j ne. update_ne s.clients i j _ ne),
                fl,
              ))
        ])
  ]

  -- what the third loop does to clients and the pool
  abbrev pub Targeted : (peers : List ℕ) → (i : ℕ) → Setup → (s t : State W) → Type 0
  Targeted peers i g s t =
      Clients (λ peer j. Reached host is_ud (g.qpinfo_all peer) peer (t.clients j)) peers i
      × ((j : ℕ) → j < i → t.clients j ≡ s.clients j)

  pub ready_to_send-Moved :
      (frees : List Ptr) (peers : List ℕ) (i : ℕ) (g : Setup) (s : State W)
      → Clients (λ peer j. s.clients j ≡ cleared peer) peers i
      → FreeList frees s
      → Ensures
          (λ o t.
            OnSuccess
              (λ r u. Moved frees (λ _. rts_attr is_ud) peers i g r u × Targeted peers i g s u)
              o
              t)
          Unit
          (ready_to_send host settings gpu_id port peers i g s)
  unfolding ready_to_send
  ready_to_send-Moved frees [] i g s fresh fl =
      done ((sym (append-nil g.moves), refl, refl, fl), (tt, λ j lt. refl))
  ready_to_send-Moved frees (peer ∷ peers) i g s (same, fresh) fl =
      let attr : QpAttr = rts_attr is_ud in
      let moved : Code × W = host.ibv_modify_qp i attr s.world in
      let u : State W = record s { world = moved.1 } in
      elim (Bool-cases (ltb peer host.mpi_comm_size)) [
        | inr e ↦ rw e (faults tt)
        | inl e ↦ rw e (
            unless_failure-Ensures (moved.0 == 0) _ u λ good.
              Ensures-bind (set_target-Reached frees peer i (g.qpinfo_all peer) u same fl) (λ f. f)
                λ o v p. or_failure-Ensures _ o _ v p λ _ (target, others, fl').
                  Ensures-mono
                    (ready_to_send-Moved frees peers (i + 1) (move i attr g) v
                      (Clients-mono _ _ peers (i + 1) (λ q j le old. others j (omega arith) ∙ old)
                        fresh)
                      fl')
                    (λ f. f)
                    λ r t. OnSuccess-mono _ _ r t λ h (after, (targets, before)). (
                      Moved-step frees (λ _. rts_attr is_ud) peer peers i g h t after,
                      (
                        (
                          subst (λ c. Reached host is_ud (g.qpinfo_all peer) peer c)
                              (sym (before i (omega arith))) target,
                          targets,
                        ),
                        λ j lt. before j (omega arith) ∙ others j (omega arith),
                      ),
                    ))
      ]
