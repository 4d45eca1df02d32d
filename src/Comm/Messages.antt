-- ===== src/Comm/Messages.antt =====
-- Messages and waits of src/comm_library/comm.cpp. Codes are `int`s, as bit patterns.
use libmp.Base.{
  ℕ, ◌*◌, ◌-◌, ◌%◌, ◌^◌, not, Option, none, some, List, [], ◌∷◌, ◌==◌, ltb, if◌then◌else◌, length,
  map,
}
use libmp.Types.{Code, Ptr, null, Sge}
use libmp.Env.{Env}
use libmp.Machine.{M, Fault, pure, fail, ◌>>=◌, ◌>>◌, assert, exit_unless}
use libmp.Send.{MpReg, Posted, mp_irecv, mp_isend}
use libmp.Stream.{mp_isend_on_stream, mp_wait_on_stream, mp_wait_all_on_stream}
use libmp.Wait.{mp_wait, mp_wait_all}
use libmp.Windows.{mp_register, mp_deregister}
use libmp.Comm.Tables.{Comm, max_reqs, checked_rank, env_at, comm_track_request, stored_in}

-- `-1` and `-EINVAL`
abbrev pub minus_one : Code
minus_one = 2 ^ 32 - 1

abbrev pub minus_einval : Code
minus_einval = 2 ^ 32 - 22

-- `comm_size_of_mpi_type`; any other type ends the process
pub data MpiType : Type 0 where
  mpi_double mpi_float mpi_char mpi_int other_type : MpiType

abbrev pub comm_size_of_mpi_type : {W : Type 0} → MpiType → M W ℕ
comm_size_of_mpi_type mpi_double = pure 8
comm_size_of_mpi_type mpi_float = pure 4
comm_size_of_mpi_type mpi_char = pure 1
comm_size_of_mpi_type mpi_int = pure 4
comm_size_of_mpi_type other_type = fail Fault.exited

-- what a send or a receive gives: the code, the registration, the caller's handle, the globals
pub record Result : Type 0 where
  pub code : Code
  pub reg : Option MpReg
  pub handle : Ptr
  pub comm : Comm

module _ {W : Type 0} (env : Env W) where
  -- A registration that is there is used as it is; `none` is `NULL`.
  unfoldable pub comm_register : (buf size : ℕ) → Option MpReg → Comm → M W (Code × Option MpReg)
  comm_register buf size creg c = do
    assert c.comm_initialized
    if size == 0 then pure (minus_einval, creg) else elim creg [
      | some reg ↦ pure (0, some reg)
      | none ↦ do
        (ret, reg) ← mp_register (env_at env c) buf size
        exit_unless (ret == 0)
        pure (0, reg)
    ]

  unfoldable pub comm_deregister : Option MpReg → Comm → M W (Option MpReg)
  comm_deregister creg c = do
    assert c.comm_initialized
    elim creg [
      | none ↦ pure none
      | some reg ↦ do ret ← mp_deregister (env_at env c) reg; exit_unless (ret == 0); pure none
    ]

  -- What the three kinds of message have in common. `post` is the call of libmp; if it fails, the
  -- registration is given up, also one that the caller brought.
  unfoldable pub message :
      (post : Env W → (buf nbytes peer key : ℕ) → M W Posted)
      → (buf size : ℕ) → MpiType
      → Option MpReg
      → (rank : ℕ) → (handle : Ptr) → Comm
      → M W Result
  message post buf size type creg rank handle c = do
    assert c.comm_initialized
    bytes ← comm_size_of_mpi_type type
    let nbytes = (size * bytes) % 2 ^ 64
    checked_rank c rank
    (code, made) ← comm_register buf nbytes creg c
    exit_unless (code == 0)
    reg ← elim made [ none ↦ fail Fault.bad_access | some r ↦ pure r ]
    (ret, req) ← post (env_at env c) buf (nbytes % 2 ^ 32) rank reg.key
    if ret == 0
        then (do
          d ← comm_track_request c (stored_in handle req)
          pure (record { code = 0; reg = some reg; handle = stored_in handle req; comm = d }))
        else (do
          left ← comm_deregister (some reg) c
          pure (record { code = minus_one; reg = left; handle = stored_in handle req; comm = c }))

  unfoldable pub comm_irecv :
      (ud_padding : Sge)
      → (buf size : ℕ) → MpiType
      → Option MpReg
      → (rank : ℕ) → Ptr
      → Comm
      → M W Result
  comm_irecv ud_padding = message (λ e. mp_irecv e ud_padding)

  unfoldable pub comm_isend :
      (buf size : ℕ) → MpiType → Option MpReg → (rank : ℕ) → Ptr → Comm → M W Result
  comm_isend = message mp_isend

  unfoldable pub comm_isend_on_stream :
      (fuel stream : ℕ)
      → (buf size : ℕ) → MpiType
      → Option MpReg
      → (rank : ℕ) → Ptr
      → Comm
      → M W Result
  comm_isend_on_stream fuel stream =
      message (λ e buf nbytes peer key. mp_isend_on_stream e fuel buf nbytes peer key stream)

  -- The waits return the caller's handles, which `memset` cleared; their code is always 0.
  unfoldable pub comm_wait : (fuel : ℕ) → Ptr → Comm → M W Ptr
  comm_wait fuel p c = do
    assert c.comm_initialized
    ret ← mp_wait (env_at env c) fuel p
    exit_unless (ret == 0)
    pure null

  unfoldable pub comm_wait_all : (fuel : ℕ) → List Ptr → Comm → M W (List Ptr)
  comm_wait_all fuel reqs c = do
    assert c.comm_initialized
    ret ← mp_wait_all (env_at env c) fuel reqs
    exit_unless (ret == 0)
    pure (map (λ p. null) reqs)

  unfoldable pub comm_wait_all_on_stream : List Ptr → (stream : ℕ) → Comm → M W (List Ptr)
  comm_wait_all_on_stream reqs stream c = do
    assert c.comm_initialized
    ret ← elim reqs [
      | [] ↦ mp_wait_all_on_stream (env_at env c) [] stream
      | p ∷ [] ↦ (do assert (not (p == null)); mp_wait_on_stream (env_at env c) p stream)
      | p ∷ (q ∷ rest) ↦ mp_wait_all_on_stream (env_at env c) (p ∷ q ∷ rest) stream
    ]
    exit_unless (ret == 0)
    pure (map (λ p. null) reqs)

  -- waits for all that was tracked, and forgets it whatever code it returns
  unfoldable pub comm_flush : (fuel : ℕ) → Comm → M W (Code × Comm)
  comm_flush fuel c = if length c.reqs == 0 then pure (0, c) else do
    assert (ltb (length c.reqs) max_reqs)
    ret ← mp_wait_all (env_at env c) fuel c.reqs
    pure (ret, record c { reqs = [] })
