-- ===== src/Init/Ready.antt =====
-- What the connection part of `mp_init` in src/mp.c leaves.
use libmp.Base.{
  ℕ, ◌≡◌, refl, ◌∙◌, ap, sym, subst, Bool, none, some, List, [], ◌++◌, ◌==◌, ◌∉◌, Option-cases, inl,
  inr, Distinct, length,
}
use libmp.Types.{Ptr}
use libmp.Env.{Env}
use libmp.Machine.{State}
use libmp.Machine.Outcome.{Ensures, done, faults, Ensures-bind}
use libmp.Machine.Commands.{assert-keeps, branch}
use libmp.Pool.FreeList.{FreeList}
use libmp.Windows.Exchange.{SameButWorld, mp_register-world}
use libmp.Init.Settings.{Settings, is_on}
use libmp.Init.Verbs.{QpInfo, PortAttr, Host}
use libmp.Init.Connect.{Setup, init_attr, rtr_attr, rts_attr}
use libmp.Init.Start.{Started, register_padding, with_ipc, connect, configured}
use libmp.Init.Failures.{OnSuccess, or_failure-Ensures, stage, Clients, Clients-mono}
use libmp.Init.Queues.{
  Reached, Created, create_qps-Created, Moved, ready_to_receive-Moved, Targeted,
  ready_to_send-Moved,
}

module _ {W : Type 0} (env : Env W) (host : Host W) where
  open env use {config}

  -- The clients are those of `peers`, with their queue pairs moved through all stages, outside the
  -- datagram mode towards the numbers that came from there, and `frees` is the free list.
  abbrev pub Ready :
      (frees : List Ptr) (peers : List ℕ)
      → (datagrams ipc : Bool) → PortAttr
      → Started
      → State W
      → Type 0
  Ready frees peers datagrams ipc port g t = record {
    mode : g.config.mp_enable_ipc ≡ ipc;
    index : Clients (λ peer i. g.config.client_index peer ≡ some i) peers 0;
    others : (peer : ℕ) → peer ∉ peers → g.config.client_index peer ≡ none;
    count : g.config.client_count ≡ length peers;
    exchanged : (w : W) × ((host.mpi_alltoall g.sent w).0 ≡ some g.received);
    moves :
        g.moves
        ≡ (stage (λ _. init_attr datagrams) peers 0
            ++ stage (λ peer. rtr_attr datagrams port (g.received peer)) peers 0)
          ++ stage (λ _. rts_attr datagrams) peers 0;
    clients :
        Clients (λ peer i. Reached host datagrams (g.received peer) peer (t.clients i)) peers 0;
    pool : FreeList frees t;
  }

  register_padding-world :
      (settings : Settings) (s : State W)
      → Ensures (λ _ t. SameButWorld s t) Unit (register_padding env host settings s)
  unfolding register_padding
  register_padding-world settings s =
      branch (λ _ t. SameButWorld s t) (is_on settings.mp_enable_ud) _ _ s
        (λ on.
          Ensures-bind
            (mp_register-world (record env { config = configured config settings 0 (λ _. none) })
              host.ud_padding 40 s)
            (λ f. f) λ r t same. assert-keeps (λ u. SameButWorld s u) (r.0 == 0) t same)
        (λ off. done refl)

  -- the loops, one after the other
  loops-Ready :
      (frees : List Ptr) (peers : List ℕ) (gpu_id : ℕ) (settings : Settings) (port : PortAttr)
      (tables g h k : Setup) (infos : ℕ → QpInfo) (s t v x y : State W)
      → ((rank : ℕ) → tables.client_index rank ≡ none)
      → tables.moves ≡ []
      → (host.mpi_alltoall g.qpinfo_all t.world).0 ≡ some infos
      → Created host settings gpu_id port frees peers 0 tables s g t
      → Moved host settings gpu_id port frees
          (λ peer. rtr_attr (is_on settings.mp_enable_ud) port (infos peer))
          peers
          0
          (record g { qpinfo_all = infos })
          h
          v
      → Moved host settings gpu_id port frees
          (λ _. rts_attr (is_on settings.mp_enable_ud))
          peers
          0
          h
          k
          x
      → Targeted host settings gpu_id port peers 0 h v x
      → SameButWorld x y
      → (w : W)
      → Ready frees peers
          (is_on settings.mp_enable_ud)
          (is_on settings.mp_enable_ipc)
          port
          (record {
            config = configured config settings (length peers) k.client_index;
            sent = g.qpinfo_all;
            received = infos;
            moves = k.moves;
          })
          (record y { world = w })
  loops-Ready frees peers gpu_id settings port tables g h k infos s t v x y clear fresh e created
        (moves, index, known, fl) (moves', index', known', fl') (targets, _) same w =
      let datagrams : Bool = is_on settings.mp_enable_ud in
      let indices : k.client_index ≡ g.client_index = index' ∙ index in
      record {
        mode = refl;
        index =
            Clients-mono _ _ peers 0 (λ peer j le p. ap (λ f. f peer) indices ∙ p) created.index;
        others = λ peer out. ap (λ f. f peer) indices ∙ created.others peer out ∙ clear peer;
        count = refl;
        exchanged = (t.world, e);
        moves =
            moves'
            ∙ ap (λ ms. ms ++ stage (λ _. rts_attr datagrams) peers 0)
                (moves
                  ∙ ap (λ ms. ms ++ stage (λ peer. rtr_attr datagrams port (infos peer)) peers 0)
                      (created.moves
                        ∙ ap (λ ms. ms ++ stage (λ _. init_attr datagrams) peers 0) fresh));
        clients =
            Clients-mono _ _ peers 0
              (λ peer j le p.
                subst (λ (f : ℕ → QpInfo). Reached host datagrams (f peer) peer (y.clients j)) known
                  (subst
                    (λ (z : State W). Reached host datagrams (h.qpinfo_all peer) peer (z.clients j))
                    (sym same) p))
              targets;
        pool = subst (λ (z : State W). FreeList frees (record z { world = w })) (sym same) fl';
      }

  -- Each of these statements leaves the IPC part to a premise on it.
  pub connect-Ready :
      (Q : Started → State W → Type 0) (frees : List Ptr) (peers : List ℕ) (gpu_id fuel : ℕ)
      (settings : Settings) (port : PortAttr) (tables : Setup) (s : State W)
      → Distinct peers
      → ((rank : ℕ) → tables.client_index rank ≡ none)
      → tables.moves ≡ []
      → FreeList frees s
      → ((g : Started) (u : State W)
          → Ready frees peers (is_on settings.mp_enable_ud) (is_on settings.mp_enable_ipc) port g u
          → Ensures (λ o t. OnSuccess Q o t) Unit (with_ipc env host fuel g u))
      → Ensures
          (λ o t. OnSuccess Q o t)
          Unit
          (connect env host peers gpu_id fuel settings port tables s)
  unfolding connect
  connect-Ready Q frees peers gpu_id fuel settings port tables s distinct clear fresh fl shared =
      Ensures-bind (create_qps-Created host settings gpu_id port frees peers 0 tables s distinct fl)
        (λ f. f)
        λ o t p. or_failure-Ensures _ o _ t p λ g created.
          elim (Option-cases (host.mpi_alltoall g.qpinfo_all t.world).0) [
            | inl e ↦ rw e (faults tt)
            | inr (infos, e) ↦ rw e (
                Ensures-bind
                  (ready_to_receive-Moved host settings gpu_id port frees peers 0
                    (record g { qpinfo_all = infos }) _ created.pool)
                  (λ f. f)
                  λ o' v p'. or_failure-Ensures _ o' _ v p' λ h (received, same).
                    Ensures-bind
                      (ready_to_send-Moved host settings gpu_id port frees peers 0 h _
                        (Clients-mono _ _ peers 0 (λ peer j le old. ap (λ f. f j) same ∙ old)
                          created.clients)
                        received.3)
                      (λ f. f)
                      λ o'' x p''. or_failure-Ensures _ o'' _ x p'' λ k (sent, targets).
                        Ensures-bind (register_padding-world settings x) (λ f. f)
                          λ _ y unchanged. shared _ _ (
                            loops-Ready frees peers gpu_id settings port tables g h k infos s t v x
                              y clear fresh e created received sent targets unchanged
                              (host.mpi_barrier y.world).1))
          ]
