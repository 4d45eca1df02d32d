-- ===== src/Device.antt =====
-- The descriptors for device kernels, src/mp_device.cpp with include/mp/device.cuh: what a kernel
-- writes or polls to post a request or to wait for it. The three functions have one name in C++.
use libmp.Base.{ℕ, Option, none, some, ◌||◌, ◌==◌, if◌then◌else◌}
use libmp.Types.{Code, mp_failure, Ptr, MpState, is_prepared, is_pending_nowait, is_complete}
use libmp.Env.{Env}
use libmp.Machine.{M, pure, ◌>>=◌, ◌>>◌, assert, call, load, modify, index_of}

-- `isem32_t` and `isem64_t`
pub record Isem : Type 0 where
  pub ptr : ℕ
  pub value : ℕ

-- `send_desc_t`
pub record SendDesc : Type 0 where
  pub dbrec : Isem
  pub db : Isem

-- `wait_desc_t`
pub record WaitDesc : Type 0 where
  pub sema_cond : ℕ
  pub sema : Isem
  pub flag : Isem

-- what GDSync says of a word, of a send and of a wait: a code, and the places to use
pub record Mlx5 (W : Type 0) : Type 0 where
  pub gds_mlx5_get_dword_wait_info : (ptr value : ℕ) → W → (Code × Isem) × W
  pub gds_mlx5_get_send_info : (send_info : ℕ) → W → (Code × SendDesc) × W
  pub gds_mlx5_get_wait_info : (wait_info : ℕ) → W → (Code × WaitDesc) × W

-- a failure becomes `MP_FAILURE`; nothing is stored then
abbrev pub stored : {A : Type 0} → Code × A → Code × Option A
stored (ret, a) = if ret == 0 then (0, some a) else (mp_failure, none)

module _ {W : Type 0} (env : Env W) (mlx5 : Mlx5 W) where
  open env use {config}

  unfoldable pub word_descriptors : (ptr value : ℕ) → M W (Code × Option Isem)
  word_descriptors ptr value = do
    info ← call (mlx5.gds_mlx5_get_dword_wait_info ptr value)
    pure (stored info)

  unfoldable pub send_descriptors : Ptr → M W (Code × Option SendDesc)
  send_descriptors p = do
    r ← load p
    assert (is_prepared r.status)
    if config.use_event_sync then pure (mp_failure, none) else (do
      modify p (λ q. record q { status = MpState.pending_nowait; stream = 0 })
      info ← call (mlx5.gds_mlx5_get_send_info r.gds_send_info)
      pure (stored info))

  unfoldable pub wait_descriptors : Ptr → M W (Code × Option WaitDesc)
  wait_descriptors p = do
    r ← load p
    index_of (config.client_index r.peer)
    assert (is_pending_nowait r.status || is_complete r.status)
    modify p (λ q. record q { stream = 0; status = MpState.pending })
    info ← call (mlx5.gds_mlx5_get_wait_info r.gds_wait_info)
    pure (stored info)
