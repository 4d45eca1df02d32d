-- ===== src/Comm/Handshake.antt =====
-- The handshake of src/comm_library/comm.cpp: a receiver announces by a put into its peer's table that
-- it is ready, once for each message, and the sender waits for the next announcement.
use libmp.Base.{
  ℕ, zero, suc, ◌+◌, ◌*◌, Bool, true, false, not, ◌==◌, ltb, if◌then◌else◌, update, length,
}
use libmp.Types.{Ptr, mp_put_inline, mp_put_nowait}
use libmp.Env.{Env}
use libmp.Machine.{M, out_of_fuel, pure, ◌>>=◌, ◌>>◌, assert, exit_unless, call}
use libmp.Send.{mp_iput}
use libmp.Stream.{mp_iput_on_stream, mp_wait32_on_stream, wait_geq}
use libmp.Progress.{mp_progress_all}
use libmp.Comm.Tables.{
  Comm, Memory, inc32, max_reqs, checked_rank, env_at, comm_track_request, stored_in,
}

-- whether the word of the table says that the peer is ready, for the value awaited
abbrev pub is_ready : (word value : ℕ) → Bool
is_ready word value = not (ltb word value)

-- the counters behind one more announcement, and behind one more wait
abbrev pub announced : (rank : ℕ) → Comm → Comm
announced rank c = record c {
  remote_ready_values = update c.remote_ready_values rank (inc32 (c.remote_ready_values rank));
}

abbrev pub awaited : (rank : ℕ) → Comm → Comm
awaited rank c = record c {
  ready_values = update c.ready_values rank (inc32 (c.ready_values rank));
}

module _ {W : Type 0} (env : Env W) (memory : Memory W) where
  -- The handle that the caller gave, and what it holds after the call. The put takes the word of
  -- the table of values and writes it to the place of this rank.
  unfoldable pub comm_send_ready : (rank handle : ℕ) → Comm → M W (Ptr × Comm)
  comm_send_ready rank handle c = do
    checked_rank c rank
    (ret, req) ←
        mp_iput (env_at env c) (memory.remote_ready_values + 4 * rank) 4 c.remote_ready_values_key
          rank (c.comm_rank * 4) c.ready_table_win (mp_put_inline + mp_put_nowait)
    exit_unless (ret == 0)
    pure (stored_in handle req, announced rank c)

  unfoldable pub comm_send_ready_on_stream : (fuel rank handle stream : ℕ) → Comm → M W (Ptr × Comm)
  comm_send_ready_on_stream fuel rank handle stream c = do
    checked_rank c rank
    (ret, req) ←
        mp_iput_on_stream (env_at env c) fuel (memory.remote_ready_values + 4 * rank) 4
          c.remote_ready_values_key rank (c.comm_rank * 4) c.ready_table_win mp_put_inline stream
    exit_unless (ret == 0)
    d ← comm_track_request c (stored_in handle req)
    pure (stored_in handle req, announced rank d)

  unfoldable pub comm_wait_ready_on_stream : (rank stream : ℕ) → Comm → M W Comm
  comm_wait_ready_on_stream rank stream c = do
    checked_rank c rank
    ret ←
        mp_wait32_on_stream (env_at env c) (memory.ready_table + 4 * rank) (c.ready_values rank)
          wait_geq stream
    exit_unless (ret == 0)
    pure (awaited rank c)

  unfoldable pub comm_progress : Comm → M W ℕ
  comm_progress c = do assert (ltb (length c.reqs) max_reqs); mp_progress_all (env_at env c) c.reqs

  -- The loop of `comm_wait_ready`, with its count of rounds; it makes progress after each 10001
  -- rounds. The C does not bound it.
  unfoldable pub ready_loop : (fuel count rank : ℕ) → Comm → M W (Unit {0})
  ready_loop zero count rank c = λ _. out_of_fuel
  ready_loop (suc fuel) count rank c = do
    word ← call (memory.read_ready_table rank)
    if is_ready word (c.ready_values rank)
        then pure tt
        else if ltb 10000 (count + 1)
        then comm_progress c >> ready_loop fuel 0 rank c
        else ready_loop fuel (count + 1) rank c

  unfoldable pub comm_wait_ready : (fuel rank : ℕ) → Comm → M W Comm
  comm_wait_ready fuel rank c = do
    checked_rank c rank
    ready_loop fuel 0 rank c
    pure (awaited rank c)

  -- one look; what is stored in `*p_rdy`
  unfoldable pub comm_test_ready : (rank : ℕ) → Comm → M W (Bool × Comm)
  comm_test_ready rank c = do
    checked_rank c rank
    word ← call (memory.read_ready_table rank)
    pure (if is_ready word (c.ready_values rank) then (true, awaited rank c) else (false, c))
