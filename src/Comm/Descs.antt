-- ===== src/Comm/Descs.antt =====
-- The descriptors that src/comm_library/comm.cpp collects for a kernel, in a ring of slots.
use libmp.Base.{
  ℕ, ◌+◌, ◌*◌, ◌%◌, ◌^◌, Option, none, some, List, [], ◌∷◌, ◌++◌, ◌==◌, ltb, if◌then◌else◌, length,
  update,
}
use libmp.Types.{Code, Ptr}
use libmp.Env.{Env}
use libmp.Machine.{M, Fault, pure, fail, ◌>>=◌, ◌>>◌, assert, exit_unless}
use libmp.Send.{MpReg}
use libmp.Stream.{mp_send_prepare}
use libmp.Device.{
  Isem, SendDesc, WaitDesc, Mlx5, word_descriptors, send_descriptors, wait_descriptors,
}
use libmp.Comm.Tables.{Comm, Memory, DevDescs, no_descs, checked_rank, env_at, comm_track_request}
use libmp.Comm.Handshake.{awaited}
use libmp.Comm.Messages.{
  MpiType, Result, minus_one, comm_register, comm_deregister, comm_size_of_mpi_type,
}

abbrev pub max_n_descs : ℕ
max_n_descs = 32

abbrev pub n_dreqs : ℕ
n_dreqs = 128

-- the slot that is filled
abbrev pub dreqs : Comm → DevDescs
dreqs c = c.dreqs c.dreq_idx

abbrev pub with_dreqs : DevDescs → Comm → Comm
with_dreqs d c = record c { dreqs = update c.dreqs c.dreq_idx d }

-- `array[n++]`, which the C does not check against the size of the array
abbrev pub next_place : {W A : Type 0} → List A → M W (Unit {0})
next_place {W} xs = if ltb (length xs) max_n_descs then pure tt else fail Fault.bad_access

-- what is stored in that place: where nothing is, what `memset` left there
abbrev pub place_with : {A : Type 0} → (empty : A) → Option A → List A → List A
place_with empty none xs = xs ++ empty ∷ []
place_with empty (some a) xs = xs ++ a ∷ []

abbrev pub no_sem : Isem
no_sem = record { ptr = 0; value = 0 }

abbrev pub no_send : SendDesc
no_send = record { dbrec = no_sem; db = no_sem }

abbrev pub no_wait : WaitDesc
no_wait = record { sema_cond = 0; sema = no_sem; flag = no_sem }

module _ {W : Type 0} (env : Env W) (mlx5 : Mlx5 W) (memory : Memory W) where
  unfoldable pub comm_prepare_wait_ready : (rank : ℕ) → Comm → M W Comm
  comm_prepare_wait_ready rank c = do
    checked_rank c rank
    next_place (dreqs c).ready
    (ret, sem) ←
        word_descriptors (env_at env c) mlx5 (memory.ready_table + 4 * rank) (c.ready_values rank)
    exit_unless (ret == 0)
    let d : DevDescs = record (dreqs c) { ready = place_with no_sem sem (dreqs c).ready }
    pure (awaited rank (with_dreqs d c))

  -- The count of sends goes up also where no descriptor could be had.
  unfoldable pub add_send : Ptr → Comm → M W (Code × Comm)
  add_send p c = do
    next_place (dreqs c).tx
    (ret, desc) ← send_descriptors (env_at env c) mlx5 p
    pure (ret, with_dreqs (record (dreqs c) { tx = place_with no_send desc (dreqs c).tx }) c)

  unfoldable pub comm_prepare_isend :
      (buf size : ℕ) → MpiType → Option MpReg → (rank : ℕ) → Ptr → Comm → M W Result
  comm_prepare_isend buf size type creg rank handle c = do
    assert c.comm_initialized
    bytes ← comm_size_of_mpi_type type
    let nbytes = (size * bytes) % 2 ^ 64
    checked_rank c rank
    (code, made) ← comm_register env buf nbytes creg c
    exit_unless (code == 0)
    reg ← elim made [ none ↦ fail Fault.bad_access | some r ↦ pure r ]
    (ret, req) ← mp_send_prepare (env_at env c) buf (nbytes % 2 ^ 32) rank reg.key
    let now : Ptr = elim req [ none ↦ handle | some p ↦ p ]
    if ret == 0
        then (do
          (ret', d) ← add_send now c
          if ret' == 0
              then (do
                e ← comm_track_request d now
                pure (record { code = 0; reg = some reg; handle = now; comm = e }))
              else (do
                left ← comm_deregister env (some reg) c
                pure (record { code = minus_one; reg = left; handle = now; comm = d })))
        else (do
          left ← comm_deregister env (some reg) c
          pure (record { code = minus_one; reg = left; handle = now; comm = c }))

  unfoldable pub add_wait : Ptr → Comm → M W (Code × Comm)
  add_wait p c = do
    next_place (dreqs c).wait
    (ret, desc) ← wait_descriptors (env_at env c) mlx5 p
    pure (ret, with_dreqs (record (dreqs c) { wait = place_with no_wait desc (dreqs c).wait }) c)

  -- the loop; the first failure ends it
  unfoldable pub add_waits : List Ptr → Comm → M W (Code × Comm)
  add_waits [] c = pure (0, c)
  add_waits (p ∷ reqs) c = do
    (ret, d) ← add_wait p c
    if ret == 0 then add_waits reqs d else pure (minus_one, d)

  unfoldable pub comm_prepare_wait_all : List Ptr → Comm → M W (Code × Comm)
  comm_prepare_wait_all reqs c = do assert c.comm_initialized; add_waits reqs c

-- The slot that was filled, and the next one cleared in its place. The C returns a pointer to the
-- slot, which is filled again 128 calls later.
unfoldable pub comm_prepared_requests : Comm → DevDescs × Comm
comm_prepared_requests c =
    let next : Comm = record c { dreq_idx = (c.dreq_idx + 1) % n_dreqs } in
    (dreqs c, with_dreqs no_descs next)
