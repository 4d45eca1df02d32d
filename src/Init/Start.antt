-- ===== src/Init/Start.antt =====
-- `mp_init` and `mp_finalize` of src/mp.c.
use libmp.Base.{
  ℕ, ◌+◌, Bool, true, false, not, ◌||◌, Option, none, some, List, [], ◌∷◌, ◌==◌, if◌then◌else◌,
  length,
}
use libmp.Types.{null}
use libmp.Env.{Env, Config}
use libmp.Machine.{Fault, ok, M, pure, fail, ◌>>=◌, ◌>>◌, assert, gets, call}
use libmp.Ipc.{cu_check}
use libmp.Pool.{allocate_requests}
use libmp.Windows.{mp_register}
use libmp.Init.Settings.{Text, Settings, read_settings, less_int, is_on}
use libmp.Init.Verbs.{QpInfo, QpAttr, PortAttr, Host}
use libmp.Init.Connect.{
  Setup, or_failure, unless_failure, cleared, create_qps, ready_to_receive, ready_to_send,
}
use libmp.Init.Shared.{connect_ipc}

-- What `mp_init` leaves: the globals, and what the queue pairs went through: the numbers that were
-- exchanged and the attributes that they accepted, in order.
pub record Started : Type 0 where
  pub config : Config
  pub sent : ℕ → QpInfo
  pub received : ℕ → QpInfo
  pub moves : List (ℕ × QpAttr)

-- a text at the front of another
abbrev pub starts : Text → Text → Bool
starts [] t = true
starts (a ∷ s) [] = false
starts (a ∷ s) (b ∷ t) = if a == b then starts s t else false

-- `strstr`, as a test
unfoldable pub contains : Text → Text → Bool
contains s [] = starts s []
contains s (b ∷ t) = starts s (b ∷ t) || contains s t

abbrev pub find_device : (requested : Text) → List Text → Option Text
find_device requested [] = none
find_device requested (name ∷ names) =
    if contains requested name then some name else find_device requested names

-- the device asked for, or else the first one; an empty list has no first one
abbrev pub pick_device : Option Text → List Text → Option Text
pick_device requested [] = none
pick_device none (name ∷ names) = some name
pick_device (some requested) (name ∷ names) = elim (find_device requested (name ∷ names)) [
  | none ↦ some name
  | some found ↦ some found
]

-- the settings within the limits of the device
abbrev pub limited : (max_sge : ℕ) → Settings → Settings
limited max_sge settings = record settings {
  ib_max_sge = if less_int max_sge settings.ib_max_sge then max_sge else settings.ib_max_sge;
}

abbrev pub configured : Config → Settings → (count : ℕ) → (index : ℕ → Option ℕ) → Config
configured c settings count index = record c {
  use_event_sync = is_on settings.use_event_sync;
  mp_enable_ud = is_on settings.mp_enable_ud;
  mp_enable_ipc = is_on settings.mp_enable_ipc;
  cq_poll_count = settings.cq_poll_count;
  ib_max_sge = settings.ib_max_sge;
  client_count = count;
  client_index = index;
}

module _ {W : Type 0} (env : Env W) (host : Host W) where
  open env use {config}

  -- the device, with its limits applied to the settings, and its port
  unfoldable pub open_device : Settings → M W (Option (Settings × PortAttr))
  open_device settings = do
    names ← call host.ibv_get_device_list
    or_failure names (λ list. do
      name ← elim (pick_device settings.req_dev list) [
        | none ↦ fail Fault.bad_access
        | some found ↦ pure found
      ]
      given ← call env.malloc
      unless_failure given (do
        opened ← call (host.ibv_open_device name)
        unless_failure opened (do
          attr ← call host.ibv_query_device
          or_failure attr (λ max_sge. do
            pd ← call host.ibv_alloc_pd
            unless_failure pd (do
              port ← call host.ibv_query_port
              pure (some (limited max_sge settings, port)))))))

  -- the arrays of clients, `memset`, and of `qpinfo_t`
  unfoldable pub allocate_tables : M W (Option Setup)
  allocate_tables = do
    index ← call env.malloc
    unless_failure index (do
      clients ← call env.malloc
      unless_failure clients (do
        (λ s. ok tt (record s { clients = λ _. cleared 0 }))
        infos ← call env.malloc
        unless_failure infos (
            pure (
              some (record {
                client_index = λ _. none;
                qpinfo_all = host.qpinfo_memory;
                moves = [];
              })))))

  -- the padding that a datagram's receive needs
  unfoldable pub register_padding : Settings → M W (Unit {0})
  register_padding settings =
      if is_on settings.mp_enable_ud
      then (do
        (ret, reg) ←
            mp_register (record env { config = configured config settings 0 (λ _. none) })
              host.ud_padding 40
        assert (ret == 0))
      else pure tt

  -- the IPC part, if it is enabled
  unfoldable pub with_ipc : (fuel : ℕ) → Started → M W (Option Started)
  with_ipc fuel started =
      if started.config.mp_enable_ipc
      then (do
        shared ←
            connect_ipc (record env { config = started.config }) host fuel
              started.config.client_index
        or_failure shared (λ _. pure (some started)))
      else pure (some started)

  -- from the creation of the queue pairs on
  unfoldable pub connect :
      (peers : List ℕ) → (gpu_id fuel : ℕ) → Settings → PortAttr → Setup → M W (Option Started)
  connect peers gpu_id fuel settings port tables = do
    created ← create_qps host settings gpu_id port peers 0 tables
    or_failure created (λ g. do
      infos ← cu_check env (← call (host.mpi_alltoall g.qpinfo_all))
      ready ← ready_to_receive host settings gpu_id port peers 0 (record g { qpinfo_all = infos })
      or_failure ready (λ h. do
        call host.mpi_barrier
        sending ← ready_to_send host settings gpu_id port peers 0 h
        or_failure sending (λ k. do
          register_padding settings
          call host.mpi_barrier
          let started : Started = record {
            config = configured config settings (length peers) k.client_index;
            sent = g.qpinfo_all;
            received = infos;
            moves = k.moves;
          }
          with_ipc fuel started)))

  -- The result is `none` for `MP_FAILURE`. `fuel` bounds the wait for the shared memory.
  unfoldable pub mp_init : (peers : List ℕ) → (init_flags gpu_id fuel : ℕ) → M W (Option Started)
  mp_init peers init_flags gpu_id fuel = if less_int gpu_id 0 then pure none else (do
    version ← call host.gds_query_version
    or_failure version (λ v. unless_failure (host.gds_version_compatible v) (do
      device ← open_device (read_settings host.getenv init_flags)
      or_failure device (λ (settings, port). do
        allocate_requests env
        assert (not ((← gets (λ s. s.free_list)) == null))
        tables ← allocate_tables
        or_failure tables (λ g. connect peers gpu_id fuel settings port g)))))

  -- the queue pairs of clients `i` on
  unfoldable pub destroy_qps : (n i : ℕ) → M W (Unit {0})
  destroy_qps ℕ.zero i = pure tt
  destroy_qps (ℕ.suc n) i = call (host.gds_destroy_qp i) >> destroy_qps n (i + 1)

  -- The regions of requests are freed with their list; `client_index` and `clients` are freed too.
  unfoldable pub mp_finalize : M W (Unit {0})
  mp_finalize = do
    call host.mpi_barrier
    destroy_qps config.client_count 0
    call host.ibv_dealloc_pd
    call host.ibv_close_device
    (λ s. ok tt (record s { mem_regions = [] }))
