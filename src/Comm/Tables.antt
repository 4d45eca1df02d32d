-- ===== src/Comm/Tables.antt =====
-- The state of src/comm_library/comm.cpp, and the tables that `comm_init` sets up.
use libmp.Base.{
  ℕ, zero, suc, ◌+◌, ◌*◌, ◌-◌, ◌%◌, ◌^◌, Bool, true, Option, none, some, List, [], ◌∷◌, ◌++◌, ◌==◌,
  ltb, if◌then◌else◌, length, update,
}
use libmp.Types.{Ptr}
use libmp.Env.{Env, Config}
use libmp.Machine.{M, pure, ◌>>=◌, ◌>>◌, assert, exit_unless, call}
use libmp.Ipc.{cu_check}
use libmp.Send.{MpReg, MpWindow}
use libmp.Windows.{mp_register, mp_window_create}
use libmp.Init.Verbs.{Host}
use libmp.Init.Start.{mp_init, mp_finalize}
use libmp.Device.{Isem, SendDesc, WaitDesc}

-- `struct comm_dev_descs`: three arrays with their counts
pub record DevDescs : Type 0 where
  pub ready : List Isem
  pub tx : List SendDesc
  pub wait : List WaitDesc

-- The globals. `config` is what `mp_init` left; `reqs` are the first `n_reqs` of the array; `-1` in
-- `rank_to_peer` is `none`; the tables that peers write stand in the outside world.
pub record Comm : Type 0 where
  pub config : Config
  pub comm_initialized : Bool
  pub comm_size : ℕ
  pub comm_rank : ℕ
  pub rank_to_peer : ℕ → Option ℕ
  pub peers : List ℕ
  pub ready_values : ℕ → ℕ
  pub remote_ready_values : ℕ → ℕ
  pub remote_ready_values_key : ℕ
  pub ready_table_win : MpWindow
  pub reqs : List Ptr
  pub dreqs : ℕ → DevDescs
  pub dreq_idx : ℕ

-- Where the tables lie, and the words that peers write.
pub record Memory (W : Type 0) : Type 0 where
  pub ready_table : ℕ
  pub remote_ready_values : ℕ
  pub read_ready_table : (rank : ℕ) → W → ℕ × W
  pub clear_ready_table : (rank : ℕ) → W → Unit {0} × W

abbrev pub max_ranks : ℕ
max_ranks = 128

abbrev pub max_reqs : ℕ
max_reqs = 16384

-- `uint32_t`
abbrev pub inc32 : ℕ → ℕ
inc32 n = (n + 1) % 2 ^ 32

-- the loop over the ranks from `i` on, of which there are `n`
unfoldable pub peer_tables :
    (rank n i : ℕ) → (peers : List ℕ) → (index : ℕ → Option ℕ) → List ℕ × (ℕ → Option ℕ)
peer_tables rank zero i peers index = (peers, index)
peer_tables rank (suc n) i peers index =
    if i == rank
    then peer_tables rank n (i + 1) peers (update index i none)
    else peer_tables rank n (i + 1) (peers ++ i ∷ []) (update index i (some (length peers)))

abbrev pub no_descs : DevDescs
no_descs = record { ready = []; tx = []; wait = [] }

module _ {W : Type 0} (memory : Memory W) where
  unfoldable pub clear_table : (n i : ℕ) → M W (Unit {0})
  clear_table zero i = pure tt
  clear_table (suc n) i = call (memory.clear_ready_table i) >> clear_table n (i + 1)

  -- `MP_CHECK(mp_register(...))`
  unfoldable pub checked_register : Env W → (addr length : ℕ) → M W MpReg
  checked_register env addr length = do
    (ret, reg) ← mp_register env addr length
    exit_unless (ret == 0)
    cu_check env reg

  -- the tables of the handshake and their registrations, from the size of the tables on
  unfoldable pub ready_tables : Env W → (size : ℕ) → M W (MpWindow × MpReg)
  ready_tables env size = do
    let bytes : ℕ = if ltb (4 * size) 4096 then 4096 else 4 * size
    assert (← call env.malloc)
    assert (← call env.malloc)
    assert (← call env.malloc)
    clear_table size 0
    checked_register env memory.ready_table bytes
    (ret, window) ← mp_window_create env memory.ready_table bytes
    exit_unless (ret == 0)
    reg ← checked_register env memory.remote_ready_values bytes
    pure (window, reg)

  -- The code is always 0: everything else ends the process.
  unfoldable pub comm_init : Env W → Host W → (gpu_id fuel : ℕ) → M W Comm
  comm_init env host gpu_id fuel = do
    let size = host.mpi_comm_size
    let rank = env.config.mpi_comm_rank
    assert (ltb size max_ranks)
    let tables = peer_tables rank size 0 [] (λ _. some 0)
    assert (size - 1 == length tables.0)
    started ← cu_check env (← mp_init env host tables.0 0 gpu_id fuel)
    (window, reg) ← ready_tables (record env { config = started.config }) size
    pure (record {
      config = started.config;
      comm_initialized = true;
      comm_size = size;
      comm_rank = rank;
      rank_to_peer = tables.1;
      peers = tables.0;
      ready_values = λ _. 1;
      remote_ready_values = λ _. 1;
      remote_ready_values_key = reg.key;
      ready_table_win = window;
      reqs = [];
      dreqs = λ _. no_descs;
      dreq_idx = 0;
    })

-- `comm_mpi_rank_to_peer`, which returns the rank
abbrev pub checked_rank : {W : Type 0} → Comm → (rank : ℕ) → M W (Unit {0})
checked_rank c rank = assert c.comm_initialized >> assert (ltb rank c.comm_size)

-- the environment behind `comm_init`
abbrev pub env_at : {W : Type 0} → Env W → Comm → Env W
env_at env c = record env { config = c.config }

-- `comm_track_request`
unfoldable pub comm_track_request : {W : Type 0} → Comm → Ptr → M W Comm
comm_track_request c p = do
  assert (ltb (length c.reqs) max_reqs)
  pure (record c { reqs = c.reqs ++ p ∷ [] })

-- what the caller's handle holds after a call that may store in it
abbrev pub stored_in : (before : Ptr) → Option Ptr → Ptr
stored_in before none = before
stored_in before (some p) = p

-- `comm_finalize`
unfoldable pub comm_finalize : {W : Type 0} → Env W → Host W → Comm → M W (Unit {0})
comm_finalize env host c = mp_finalize (env_at env c) host
