-- ===== src/Windows.antt =====
-- Registration of memory and windows for one-sided transfers: `mp_register`, `mp_deregister`,
-- `mp_window_create` and `mp_window_destroy` of src/mp.c. A registration is its keys.
pub mod Puts
pub mod Bounds
pub mod Exchange
use libmp.Base.{
  ℕ, zero, suc, ◌%◌, ◌^◌, Bool, true, false, not, Option, none, some, ◌==◌, if◌then◌else◌,
}
use libmp.Types.{Code, mp_success, mp_failure, IbvMr, ExchangeWinInfo}
use libmp.Env.{Env}
use libmp.Machine.{State, Fault, M, pure, fail, ◌>>=◌, ◌>>◌, assert, exit_unless, gets, call}
use libmp.Ipc.{cu_check, int_as_u64}
use libmp.Send.{MpReg, MpWindow}

-- what a rank contributes to the exchange; the `size_t` goes through an `int`
abbrev pub contribution : (addr size rkey : ℕ) → ExchangeWinInfo
contribution addr size rkey = record { base_addr = addr; rkey = rkey; size = size % 2 ^ 32 }

module _ {W : Type 0} (env : Env W) where
  open env use {config}

  -- device memory gets `SYNC_MEMOPS`
  unfoldable pub sync_memops : (addr : ℕ) → M W (Unit {0})
  sync_memops addr = do
    device ← call (env.cu_pointer_is_device addr)
    if device
        then (do
          (base, size) ← cu_check env (← call (env.cu_mem_get_address_range addr))
          exit_unless (← call (env.cu_pointer_set_sync_memops base)))
        else pure tt

  -- The code and the registration. With `DADO_DEBUG`, which the file defines, the code spins
  -- if there is no `mr`: the return of `MP_FAILURE` behind that is not reached.
  abbrev pub registered : Option IbvMr → M W (Code × Option MpReg)
  registered none = fail Fault.hangs
  registered (some mr) = pure (mp_success, some (record { key = mr.lkey; mr = mr }))

  unfoldable pub mp_register : (addr length : ℕ) → M W (Code × Option MpReg)
  mp_register addr length = do
    given ← call env.malloc
    if given
        then (do
          sync_memops addr
          mr ← call (env.ibv_reg_mr addr length (not config.mp_enable_ud))
          registered mr)
        else pure (mp_failure, none)

  unfoldable pub mp_deregister : MpReg → M W Code
  mp_deregister reg = do
    ret ← call (env.ibv_dereg_mr reg.mr)
    pure (if ret == 0 then mp_success else mp_failure)

  -- a number of `malloc`s with their assertions: the window, its arrays, the buffer of the exchange
  unfoldable pub allocate : (count : ℕ) → M W (Unit {0})
  allocate zero = pure tt
  allocate (suc count) = do given ← call env.malloc; assert given; allocate count

  -- the window, from what the ranks exchanged
  abbrev pub window_of : (ℕ → ExchangeWinInfo) → MpReg → State W → MpWindow
  window_of infos reg s = record {
    base_ptr = λ i. (infos (s.clients i).mpi_rank).base_addr;
    rkey = λ i. (infos (s.clients i).mpi_rank).rkey;
    rsize = λ i. int_as_u64 (infos (s.clients i).mpi_rank).size;
    reg = reg;
  }

  -- `mp_window_create` behind `mp_register`
  unfoldable pub exchange_window : (addr size : ℕ) → Code × Option MpReg → M W (Code × MpWindow)
  exchange_window addr size (ret, none) = fail Fault.assertion
  exchange_window addr size (ret, some reg) = do
    assert (ret == mp_success)
    infos ← call (env.mpi_allgather (contribution addr size reg.mr.rkey))
    window ← gets (window_of infos reg)
    pure (mp_success, window)

  unfoldable pub mp_window_create : (addr size : ℕ) → M W (Code × MpWindow)
  mp_window_create addr size = do
    allocate 5
    reg ← mp_register addr size
    exchange_window addr size reg

  -- The code of `mp_deregister` is not looked at.
  unfoldable pub mp_window_destroy : MpWindow → M W Code
  mp_window_destroy window = mp_deregister window.reg >> pure mp_success
