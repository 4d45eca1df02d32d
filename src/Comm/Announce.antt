-- ===== src/Comm/Announce.antt =====
-- What `comm_send_ready` of src/comm_library/comm.cpp puts into the table of its peer.
use libmp.Base.{
  ℕ, ◌+◌, ◌*◌, ◌<◌, ◌≡◌, refl, subst, sym, Bool, true, false, some, List, [], ◌∷◌, ◌++◌, arith,
  ◌==◌, ltb, inl, inr, update_self,
}
use libmp.Types.{Ptr, mp_put_inline, mp_put_nowait}
use libmp.Env.{Env}
use libmp.Machine.{State, M, ◌>>◌, pure, exit_unless, assert, and_then}
use libmp.Machine.Outcome.{Ensures, done, faults, Ensures-bind}
use libmp.Pool.FreeList.{FreeList}
use libmp.Progress.Engine.{NoWaited}
use libmp.Send.{Posted}
use libmp.Windows.Puts.{Stored, put_wr, mp_iput-Stored}
use libmp.Comm.Tables.{Comm, Memory, env_at, stored_in, inc32}
use libmp.Comm.Handshake.{announced, comm_send_ready}
use libmp.Comm.Protocol.{PairStep, announce, pair_of}

-- The counters go on as in the step, if the next value is put.
pub announced-PairStep :
    (a : Comm) (r : ℕ) (b : Comm) (q : ℕ) (flight : List ℕ) (word sent passed : ℕ)
    → PairStep (pair_of a r b q flight word sent passed) (
        pair_of
          (announced r a)
          r
          b
          q
          (flight ++ a.remote_ready_values r ∷ [])
          word
          (sent + 1)
          passed)
announced-PairStep a r b q flight word sent passed =
    subst
      (λ n. PairStep (pair_of a r b q flight word sent passed) (record {
        next = n;
        flight = flight ++ a.remote_ready_values r ∷ [];
        word = word;
        value = b.ready_values q;
        sent = sent + 1;
        passed = passed;
      }))
      (sym (update_self a.remote_ready_values r (inc32 (a.remote_ready_values r))))
      (announce (pair_of a r b q flight word sent passed))

-- two assertions that hold
both_pass :
    {W A : Type 0} {Q : A → State W → Type 0} (a b : Bool) (k : Unit {0} → M W A) (s : State W)
    → a ≡ true
    → b ≡ true
    → Ensures Q Unit (k tt s)
    → Ensures Q Unit (and_then ((assert a >> assert b) s) k)
both_pass true true k s e e' next = next
both_pass false b k s e e' next = absurd (ground (arith, e))
both_pass true false k s e e' next = absurd (ground (arith, e'))

module _ {W : Type 0} (env : Env W) (memory : Memory W) where
  -- The request that the caller gets puts the four bytes of the rank's value into the place of this
  -- rank in the window of client `i`, and the counters go on.
  abbrev pub Announces : (i rank : ℕ) → (c : Comm) → Ptr × Comm → State W → Type 0
  Announces i rank c (p, d) t = record {
    put :
        (t.reqs p).sr
        ≡ put_wr c.ready_table_win i (memory.remote_ready_values + 4 * rank) 4
            c.remote_ready_values_key (c.comm_rank * 4) (mp_put_inline + mp_put_nowait) p;
    within : c.comm_rank * 4 < c.ready_table_win.rsize i;
    counters : d ≡ announced rank c;
    step :
        (b : Comm) (q : ℕ) (flight : List ℕ) (word sent passed : ℕ)
        → PairStep (pair_of c rank b q flight word sent passed)
            (pair_of d rank b q (flight ++ c.remote_ready_values rank ∷ []) word (sent + 1) passed);
  }

  behind_put :
      (i rank handle : ℕ) (c : Comm) (r : Posted) (t : State W)
      → Stored
          (put_wr c.ready_table_win i
            (memory.remote_ready_values + 4 * rank)
            4
            c.remote_ready_values_key
            (c.comm_rank * 4)
            (mp_put_inline + mp_put_nowait))
          r
          t
      → c.comm_rank * 4 < c.ready_table_win.rsize i
      → Ensures
          (λ r' u. Announces i rank c r' u)
          Unit
          ((exit_unless (r.0 == 0) >> pure (stored_in handle r.1, announced rank c)) t)
  behind_put i rank handle c r t (inl (failed, nothing)) lt =
      let e : (r.0 == 0) ≡ false = ground arith in rw e (faults tt)
  behind_put i rank handle c (ret, o) t (inr (good, (p, stored, wrote))) lt =
      rw (good, stored)
        (done (record {
          put = wrote;
          within = lt;
          counters = refl;
          step =
              λ b q flight word sent passed. announced-PairStep c rank b q flight word sent passed;
        }))

  -- Behind comm_init, for a rank with client `i`, on a pool that is as it should be, outside the UD and
  -- event-synchronous modes and with no waited request tracked, comm_send_ready returns or faults.
  -- Where it returns, the caller's request is an inline put, without a completion, of the four bytes
  -- of the rank's value to the place of this rank in the window, which starts within it; only the
  -- rank's value changes in the tables, by one step of the handshake.
  pub comm_send_ready-Announces :
      (i rank handle : ℕ) (c : Comm) (s : State W) (frees : List Ptr)
      → c.comm_initialized ≡ true
      → rank < c.comm_size
      → c.config.client_index rank ≡ some i
      → c.config.mp_enable_ud ≡ false
      → c.config.use_event_sync ≡ false
      → NoWaited s
      → 0 < c.config.mp_request_limit
      → FreeList frees s
      → Ensures (λ r t. Announces i rank c r t) Unit (comm_send_ready env memory rank handle c s)
  unfolding comm_send_ready
  comm_send_ready-Announces i rank handle c s frees started lt at verbs no_events none_waited lim
        fl =
      let below : ltb rank c.comm_size ≡ true = ground arith in
      both_pass c.comm_initialized (ltb rank c.comm_size) _ s started below (
        Ensures-bind
          (mp_iput-Stored (env_at env c) c.ready_table_win i (memory.remote_ready_values + 4 * rank)
            4 c.remote_ready_values_key rank (c.comm_rank * 4) (mp_put_inline + mp_put_nowait) s
            frees at no_events none_waited lim fl verbs)
          (λ f. f) λ r t (stored, within). behind_put i rank handle c r t stored within)
