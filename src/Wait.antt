-- ===== src/Wait.antt =====
-- `mp_wait` and `mp_wait_all` of src/mp.c.
pub mod Release
pub mod Ready
use libmp.Base.{ℕ, zero, suc, ◌+◌, List, [], ◌∷◌, ◌==◌, ltb, if◌then◌else◌}
use libmp.Types.{
  Code, mp_failure, einval, mp_progress_error_check_tmout_us, Ptr, MpState, is_complete,
  is_pending_nowait,
}
use libmp.Env.{Env}
use libmp.Machine.{
  out_of_fuel, M, pure, ◌>>=◌, ◌>>◌, call, load, modify, index_of, cycles, req_can_be_waited,
  mp_type_to_flow,
}
use libmp.Pool.{release_mp_request}
use libmp.Progress.{progress_flows}

module _ {W : Type 0} (env : Env W) where
  open env use {config}

  -- the wait for a request that has none pending
  unfoldable pub post_wait : Ptr → M W Code
  post_wait p = do
    r ← load p
    client ← index_of (config.client_index r.peer)
    flow ← mp_type_to_flow r.type
    ret ← call (env.gds_post_wait_cq client flow r.gds_wait_info)
    if ret == 0
        then (do modify p (λ q. record q { stream = 0; status = MpState.pending }); pure 0)
        else pure ret

  -- the first loop, on one request
  unfoldable pub prepare_wait : Ptr → M W Code
  prepare_wait p = do
    r ← load p
    if config.mp_enable_ipc
        then (if is_pending_nowait r.status
            then modify p (λ q. record q { status = MpState.pending }) >> pure 0
            else pure 0)
        else (do
          can ← req_can_be_waited r
          if can then (if is_pending_nowait r.status then post_wait p else pure 0) else pure einval)

  -- one after the other, up to the first code that is not 0
  unfoldable pub for_reqs : (Ptr → M W Code) → List Ptr → M W Code
  for_reqs body [] = pure 0
  for_reqs body (p ∷ reqs) = do ret ← body p; if ret == 0 then for_reqs body reqs else pure ret

  -- The check after the timeout. The result is a code and the new start.
  unfoldable pub check_timeout : (start now : ℕ) → M W (Code × ℕ)
  check_timeout start now =
      if ltb (start + mp_progress_error_check_tmout_us) now
      then (do failed ← call env.cuda_get_last_error; pure (if failed then mp_failure else 0, now))
      else pure (0, start)

  -- `while (req->status != MP_COMPLETE)`
  unfoldable pub wait_loop : (fuel : ℕ) → Ptr → (start : ℕ) → M W (Code × ℕ)
  wait_loop zero p start = λ _. out_of_fuel
  wait_loop (suc fuel) p start = do
    r ← load p
    if is_complete r.status then pure (0, start) else do
      ret ← progress_flows env
      if ret == 0
          then (do
            now ← cycles (← call env.get_cycles)
            (code, start') ← check_timeout start now
            if code == 0 then wait_loop fuel p start' else pure (code, start'))
          else pure (ret, start)

  -- the second loop
  unfoldable pub wait_each : (fuel : ℕ) → List Ptr → (start : ℕ) → M W Code
  wait_each fuel [] start = pure 0
  wait_each fuel (p ∷ reqs) start = do
    (code, start') ← wait_loop fuel p start
    if code == 0 then wait_each fuel reqs start' else pure code

  -- the third loop
  unfoldable pub release_each : List Ptr → (ret : Code) → M W Code
  release_each [] ret = pure ret
  release_each (p ∷ reqs) ret = do
    r ← load p
    if is_complete r.status
        then release_mp_request p >> release_each reqs ret
        else release_each reqs mp_failure

  unfoldable pub mp_wait_all : (fuel : ℕ) → List Ptr → M W Code
  mp_wait_all fuel reqs = do
    start ← cycles (← call env.get_cycles)
    ret ← for_reqs prepare_wait reqs
    if ret == 0
        then (do
          waited ← wait_each fuel reqs start
          if waited == 0 then release_each reqs 0 else pure waited)
        else pure ret

  unfoldable pub mp_wait : (fuel : ℕ) → Ptr → M W Code
  mp_wait fuel p = mp_wait_all fuel (p ∷ [])
