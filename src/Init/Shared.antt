-- ===== src/Init/Shared.antt =====
-- The IPC part of `mp_init` in src/mp.c: which ranks are on this node, and the shared memory in which
-- they have their slots. Sizes and offsets are `int`s.
use libmp.Base.{
  ℕ, zero, suc, ◌+◌, ◌*◌, ◌%◌, ◌^◌, Bool, true, false, Option, none, some, List, ◌==◌, ltb,
  if◌then◌else◌,
}
use libmp.Types.{SmpBuffer}
use libmp.Env.{Env}
use libmp.Machine.{
  Fault, out_of_fuel, M, pure, fail, ◌>>=◌, ◌>>◌, call, client_at, modify_client, index_of,
}
use libmp.Ipc.{cu_check, add64, int_as_u64}
use libmp.Init.Settings.{Text, is_on}
use libmp.Init.Verbs.{NodeInfo, Host}
use libmp.Init.Connect.{or_failure, unless_failure, zero_buffer}

-- the globals of this part; `none` is the -1 that `smp_local_rank` starts with
pub record Local : Type 0 where
  pub ipc_num_procs : ℕ
  pub smp_num_procs : ℕ
  pub smp_leader : ℕ
  pub smp_local_rank : Option ℕ

abbrev pub same_text : Text → Text → Bool
same_text List.[] List.[] = true
same_text (List.◌∷◌ a s) (List.◌∷◌ b t) = if a == b then same_text s t else false
same_text List.[] (List.◌∷◌ b t) = false
same_text (List.◌∷◌ a s) List.[] = false

-- the first rank on the node leads
abbrev pub lead : (rank : ℕ) → Local → Local
lead rank l = record l { smp_leader = if l.smp_num_procs == 0 then rank else l.smp_leader }

-- the sizes of the shared memory: the slots for one peer, for one process, and for all
unfoldable pub shm_client_bufsize : (sizeof depth : ℕ) → ℕ
shm_client_bufsize sizeof depth = (sizeof * depth) % 2 ^ 32

unfoldable pub shm_proc_bufsize : (sizeof depth procs : ℕ) → ℕ
shm_proc_bufsize sizeof depth procs = (shm_client_bufsize sizeof depth * procs) % 2 ^ 32

unfoldable pub shm_filesize : (sizeof depth procs : ℕ) → ℕ
shm_filesize sizeof depth procs = (sizeof * depth * procs * procs) % 2 ^ 32

-- where in the mapping the slots lie that the process `owner` reads, and `peer` fills
unfoldable pub slots_offset : (sizeof depth procs owner peer : ℕ) → ℕ
slots_offset sizeof depth procs owner peer =
    add64 (int_as_u64 (shm_proc_bufsize sizeof depth procs * owner))
      (int_as_u64 (shm_client_bufsize sizeof depth * peer))

-- the slots that a process clears, all of them free
abbrev pub free_slots : (depth : ℕ) → ℕ → SmpBuffer
free_slots depth j = record zero_buffer { free = ltb j depth }

module _ {W : Type 0} (env : Env W) (host : Host W) where
  open env use {config}

  -- The loop over the ranks, from rank `i` on. The test for the own rank compares with the number
  -- of ranks, so it fails in each round.
  unfoldable pub scan_ranks :
      (n i : ℕ) → (ℕ → NodeInfo) → (index : ℕ → Option ℕ) → Local → M W Local
  scan_ranks zero i infos index l = pure l
  scan_ranks (suc n) i infos index l =
      if i == host.mpi_comm_size
      then scan_ranks n (i + 1) infos index (record (lead i l) {
        smp_local_rank = some l.smp_num_procs;
        smp_num_procs = l.smp_num_procs + 1;
        ipc_num_procs = l.ipc_num_procs + 1;
      })
      else if same_text (infos i).hname (infos config.mpi_comm_rank).hname
      then (do
        cidx ← index_of (index i)
        modify_client cidx (λ c. record c { is_local = true; local_rank = l.smp_num_procs })
        can ←
            cu_check env
              (← call (
                host.cuda_device_can_access_peer (infos config.mpi_comm_rank).gpu_id
                  (infos i).gpu_id))
        let here : Local = record (lead i l) { smp_num_procs = l.smp_num_procs + 1 }
        if can
            then (do
              modify_client cidx (λ c. record c { can_use_ipc = true })
              scan_ranks n (i + 1) infos index
                  (record here { ipc_num_procs = l.ipc_num_procs + 1 }))
            else scan_ranks n (i + 1) infos index here)
      else scan_ranks n (i + 1) infos index l

  abbrev pub filesize : Local → ℕ
  filesize l = shm_filesize host.sizeof_smp_buffer config.smp_depth l.smp_num_procs

  -- the file, which the leader empties and sizes
  unfoldable pub create_shared : Local → M W (Option (Unit {0}))
  create_shared l = do
    opened ← call host.shm_open
    unless_failure opened (
        if l.smp_leader == config.mpi_comm_rank
        then (do
          ret ← call (host.shm_truncate 0)
          unless_failure (ret == 0) (do
            code ← call (host.shm_truncate (filesize l))
            unless_failure (code == 0) (pure (some tt))))
        else pure (some tt))

  -- the wait until the leader has sized it; the number of rounds is not bounded in the C
  unfoldable pub await_size : (fuel size : ℕ) → M W (Option (Unit {0}))
  await_size zero size = λ _. out_of_fuel
  await_size (suc fuel) size = do
    st_size ← call host.shm_stat
    or_failure st_size (λ n. if n == size then pure (some tt) else await_size fuel size)

  unfoldable pub map_shared : (fuel : ℕ) → Local → M W (Option (Unit {0}))
  map_shared fuel l = do
    sized ← await_size fuel (filesize l)
    or_failure sized
        (λ _. do mapped ← call (host.shm_map (filesize l)); unless_failure mapped (pure (some tt)))

  -- The loop that hands the slots to the clients, from rank `i` on. Without a mapping it writes
  -- through `NULL`.
  unfoldable pub set_slots : (n i : ℕ) → (index : ℕ → Option ℕ) → Local → M W (Unit {0})
  set_slots zero i index l = pure tt
  set_slots (suc n) i index l = do
    cidx ← index_of (index i)
    c ← client_at cidx
    if c.is_local
        then (do
          own ← elim l.smp_local_rank [ none ↦ fail Fault.assertion | some rank ↦ pure rank ]
          (if ltb 1 l.smp_num_procs then pure tt else fail Fault.bad_access)
          let at : (owner peer : ℕ) → ℕ =
              slots_offset host.sizeof_smp_buffer config.smp_depth l.smp_num_procs
          theirs ← call (host.shm_slots (at c.local_rank own))
          modify_client cidx (λ d. record d {
            smp = record d.smp {
              local_buffer = free_slots config.smp_depth;
              remote_buffer = theirs;
            };
          })
          set_slots n (i + 1) index l)
        else set_slots n (i + 1) index l

  abbrev no_local : Local
  no_local = record { ipc_num_procs = 0; smp_num_procs = 0; smp_leader = 0; smp_local_rank = none }

  -- The part as a whole. `gethostname` returns 0 for success, which is taken for an error.
  unfoldable pub connect_ipc : (fuel : ℕ) → (index : ℕ → Option ℕ) → M W (Option (Unit {0}))
  connect_ipc fuel index = do
    given ← call env.malloc
    unless_failure given (do
      (ret, name) ← call host.gethostname
      unless_failure (is_on ret) (do
        gpu ← cu_check env (← call host.cuda_get_device)
        infos ←
            cu_check env (← call (host.mpi_allgather_nodes (record { hname = name; gpu_id = gpu })))
        l ← scan_ranks host.mpi_comm_size 0 infos index no_local
        made ← (if ltb 1 l.smp_num_procs then create_shared l else pure (some tt))
        or_failure made (λ _. do
          call host.mpi_barrier
          mapped ← (if ltb 1 l.smp_num_procs then map_shared fuel l else pure (some tt))
          or_failure mapped (λ _. set_slots host.mpi_comm_size 0 index l >> pure (some tt)))))
