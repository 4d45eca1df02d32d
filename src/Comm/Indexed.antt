-- ===== src/Comm/Indexed.antt =====
-- What `comm_init` of src/comm_library/comm.cpp leaves: tables that fit those of `mp_init`.
use libmp.Base.{
  ℕ, zero, suc, ◌+◌, ◌*◌, ◌-◌, ◌<◌, ◌≡◌, ◌≢◌, refl, ◌∙◌, ap, sym, subst, Bool, true, false, Option,
  none, some, List, [], arith, ◌==◌, ltb, if◌then◌else◌, length, Bool-cases, inl, inr,
}
use libmp.Types.{null, Client}
use libmp.Env.{Env, Config}
use libmp.Machine.{State, M, and_then, assert}
use libmp.Machine.Outcome.{Ensures, done, faults, Ensures-bind}
use libmp.Ipc.{cu_check}
use libmp.Pool.Region.{addresses}
use libmp.Windows.Exchange.{mp_register-world, mp_window_create-clients}
use libmp.Init.Settings.{read_settings, is_on}
use libmp.Init.Verbs.{PortAttr, Host}
use libmp.Init.Start.{Started}
use libmp.Init.Failures.{OnSuccess, exit_unless-Ensures}
use libmp.Init.Queues.{Reached-rank}
use libmp.Init.Ready.{Ready}
use libmp.Init.Whole.{mp_init-Ready}
use libmp.Comm.Tables.{
  ready_tables, Comm, Memory, peer_tables, clear_table, checked_register, comm_init, max_ranks,
}
use libmp.Comm.Peers.{Holds, comm_tables-Holds, Clients-and, Clients-member}

assert-Ensures :
    {W A : Type 0} {Q : A → State W → Type 0} (b : Bool) (k : Unit {0} → M W A) (s : State W)
    → Ensures Q Unit (k tt s)
    → Ensures Q Unit (and_then (assert b s) k)
assert-Ensures true k s next = next
assert-Ensures false k s next = faults tt

cu_check-Ensures :
    {W A : Type 0} (env : Env W) (P : A → State W → Type 0) (o : Option A) (t : State W)
    → OnSuccess P o t
    → Ensures P Unit (cu_check env o t)
cu_check-Ensures env P none t p = faults tt
cu_check-Ensures env P (some a) t p = done p

given :
    {W A : Type 0} (P : State W → Type 0) (o : Option A) (t : State W)
    → P t
    → OnSuccess (λ _ u. P u) o t
given P none t p = tt
given P (some a) t p = p

module _ {W : Type 0} (memory : Memory W) where
  clear_table-clients :
      (n i : ℕ) (s : State W)
      → Ensures (λ _ t. t.clients ≡ s.clients) Unit (clear_table memory n i s)
  unfolding clear_table
  clear_table-clients zero i s = done refl
  clear_table-clients (suc n) i s = clear_table-clients n (i + 1) _

  checked_register-clients :
      (env : Env W) (addr size : ℕ) (s : State W)
      → Ensures (λ _ t. t.clients ≡ s.clients) Unit (checked_register memory env addr size s)
  unfolding checked_register
  checked_register-clients env addr size s =
      Ensures-bind (mp_register-world env addr size s) (λ f. f)
        λ r t same. elim (Bool-cases (r.0 == 0)) [
          | inr bad ↦ rw bad (faults tt)
          | inl good ↦ rw good (
              cu_check-Ensures env (λ _ u. u.clients ≡ s.clients) r.1 t
                (given _ r.1 t (ap (λ (v : State W). v.clients) same)))
        ]

  ready_tables-clients :
      (env : Env W) (size : ℕ) (s : State W)
      → Ensures (λ _ t. t.clients ≡ s.clients) Unit (ready_tables memory env size s)
  unfolding ready_tables
  ready_tables-clients env size s =
      let bytes : ℕ = if ltb (4 * size) 4096 then 4096 else 4 * size in
      let a : Bool × W = env.malloc s.world in
      let b : Bool × W = env.malloc a.1 in
      let c : Bool × W = env.malloc b.1 in
      assert-Ensures a.0 _ (record s { world = a.1 })
        (assert-Ensures b.0 _ (record s { world = b.1 })
          (assert-Ensures c.0 _ (record s { world = c.1 })
            (Ensures-bind (clear_table-clients size 0 (record s { world = c.1 })) (λ f. f)
              λ _ t kept.
                Ensures-bind (checked_register-clients env memory.ready_table bytes t) (λ f. f)
                  λ _ t1 kept1.
                    Ensures-bind (mp_window_create-clients env memory.ready_table bytes t1) (λ f. f)
                      λ r t2 kept2. exit_unless-Ensures (r.0 == 0) _ t2 (
                        Ensures-bind
                          (checked_register-clients env memory.remote_ready_values bytes t2)
                          (λ f. f) λ _ t3 kept3. done (kept3 ∙ kept2 ∙ kept1 ∙ kept)))))

  module _ (env : Env W) (host : Host W) where
    abbrev rank : ℕ
    rank = env.config.mpi_comm_rank

    abbrev size : ℕ
    size = host.mpi_comm_size

    abbrev tables : List ℕ × (ℕ → Option ℕ)
    tables = peer_tables rank size 0 [] (λ _. some 0)

    -- The tables of libcomm and of libmp agree, and each other rank has a client.
    abbrev pub Agree :
        (config : Config) → (rank_to_peer : ℕ → Option ℕ) → (clients : ℕ → Client) → Type 0
    Agree config rank_to_peer clients = record {
      count : config.client_count + 1 ≡ size;
      own : (rank_to_peer rank ≡ none) × (config.client_index rank ≡ none);
      others :
          (i : ℕ)
          → i < size
          → i ≢ rank
          → (k : ℕ) × (config.client_index i ≡ some k)
            × (rank_to_peer i ≡ some k)
            × (k < config.client_count)
            × ((clients k).mpi_rank ≡ i);
    }

    -- What comm_init leaves: also, each counter is 1 and no request is tracked.
    abbrev pub Indexed : Comm → State W → Type 0
    Indexed c t = record {
      tables : Agree c.config c.rank_to_peer t.clients;
      counters : (i : ℕ) → (c.ready_values i ≡ 1) × (c.remote_ready_values i ≡ 1);
      reqs : c.reqs ≡ [];
    }

    Ready-Agree :
        (frees : List ℕ) (datagrams : Bool) (port : PortAttr) (g : Started) (u : State W)
        → rank < size
        → Ready env host frees tables.0 datagrams false port g u
        → Agree g.config tables.1 u.clients
    Ready-Agree frees datagrams port g u lt r =
        let h : Holds rank size tables.0 tables.1 = comm_tables-Holds rank size in
        record {
          count = ground (arith, lt, r.count, h.count);
          own = (elim h.own [ inl le ↦ absurd (ground arith) | inr e ↦ e ], r.others rank h.out);
          others = λ i below ne.
              let (k, (p, (q, reached)), bound) =
                Clients-member _ tables.0 0 i
                  (Clients-and _ _ tables.0 0 r.index
                    (Clients-and _ _ tables.0 0 h.places r.clients))
                  (elim (h.all i) [
                    | inl le ↦ absurd (ground arith)
                    | inr other ↦ elim other [ inl e ↦ absurd (ne e) | inr e ↦ e ]
                  ]) in
              (
                k,
                p,
                q,
                ground (arith, bound, r.count),
                Reached-rank host datagrams (g.received i) i (u.clients k) reached,
              );
        }

    pub comm_init-Indexed :
        (gpu_id fuel : ℕ) (s : State W)
        → is_on (read_settings host.getenv 0).mp_enable_ipc ≡ false
        → rank < size
        → 0 < env.config.mp_request_limit
        → 0 < s.brk
        → s.free_list ≡ null
        → Ensures (λ c t. Indexed c t) Unit (comm_init memory env host gpu_id fuel s)
    unfolding comm_init
    comm_init-Indexed gpu_id fuel s no_ipc lt lim pos empty =
        let h : Holds rank size tables.0 tables.1 = comm_tables-Holds rank size in
        assert-Ensures (ltb size max_ranks) _ s (
          assert-Ensures (size - 1 == length tables.0) _ s (
            Ensures-bind
              (mp_init-Ready env host tables.0 0 gpu_id fuel s no_ipc h.distinct lim pos empty)
              (λ f. f)
              λ o u p.
                Ensures-bind (cu_check-Ensures env _ o u p) (λ f. f)
                  λ g v (port, ready).
                    Ensures-bind (ready_tables-clients (record env { config = g.config }) size v)
                      (λ f. f)
                      λ _ t kept. done (record {
                        tables =
                            subst (λ clients. Agree g.config tables.1 clients) (sym kept)
                              (Ready-Agree (addresses env.config.mp_request_limit s.brk)
                                (is_on (read_settings host.getenv 0).mp_enable_ud) port g v lt
                                ready);
                        counters = λ i. (refl, refl);
                        reqs = refl;
                      })))
