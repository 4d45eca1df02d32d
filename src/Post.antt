-- ===== src/Post.antt =====
-- Posting with progress when a queue is full: `mp_post_send` and `mp_post_recv` of src/mp.c, and
-- `mp_post_send_on_stream` of src/mp_peersync.c.
pub mod Retry
use libmp.Base.{ℕ, zero, suc, ◌+◌, ◌==◌, leb, if◌then◌else◌}
use libmp.Types.{
  Code, mp_failure, enomem, mp_max_progress_flow_try, Ptr, null, MpFlow, tx_flow, rx_flow,
}
use libmp.Env.{Env}
use libmp.Machine.{out_of_fuel, M, pure, ◌>>=◌, call, load, cycles}
use libmp.Progress.{mp_progress_single_flow, progress_flows}
use libmp.Wait.{check_timeout}

module _ {W : Type 0} (env : Env W) where
  -- `gds_post_send (client->qp, &req->in.sr, ...)`
  abbrev pub post_sr : (client : ℕ) → Ptr → M W Code
  post_sr client p = do r ← load p; call (env.gds_post_send client r.sr)

  abbrev pub post_rr : (client : ℕ) → Ptr → M W Code
  post_rr client p = do r ← load p; call (env.gds_post_recv client r.rr)

  -- the loop of `mp_post_send` and `mp_post_recv`, with the number of calls of the progress function
  unfoldable pub retry_loop : (fuel : ℕ) → MpFlow → M W Code → (progress_retry : ℕ) → M W Code
  retry_loop zero flow post progress_retry = λ _. out_of_fuel
  retry_loop (suc fuel) flow post progress_retry = do
    ret ← post
    if ret == enomem
        then (do
          ret_progress ← mp_progress_single_flow env flow
          if ret_progress == 0
              then (if leb (progress_retry + 1) mp_max_progress_flow_try
                  then retry_loop fuel flow post (progress_retry + 1)
                  else pure ret)
              else pure ret)
        else pure ret

  -- The fuel is one round for each of the `MP_MAX_PROGRESS_FLOW_TRY + 1` attempts.
  unfoldable pub mp_post_send : (client : ℕ) → Ptr → M W Code
  mp_post_send client p =
      if p == null
      then pure mp_failure
      else retry_loop (mp_max_progress_flow_try + 1) tx_flow (post_sr client p) 0

  unfoldable pub mp_post_recv : (client : ℕ) → Ptr → M W Code
  mp_post_recv client p =
      if p == null
      then pure mp_failure
      else retry_loop (mp_max_progress_flow_try + 1) rx_flow (post_rr client p) 0

  abbrev pub queue_sr : (stream client : ℕ) → Ptr → M W Code
  queue_sr stream client p = do r ← load p; call (env.gds_stream_queue_send stream client r.sr)

  -- the loop of `mp_post_send_on_stream`, which gives up only on an error
  unfoldable pub stream_loop : (fuel : ℕ) → M W Code → (start : ℕ) → M W Code
  stream_loop zero post start = λ _. out_of_fuel
  stream_loop (suc fuel) post start = do
    ret ← post
    if ret == enomem
        then (do
          ret_progress ← progress_flows env
          if ret_progress == 0
              then (do
                now ← cycles (← call env.get_cycles)
                (code, start') ← check_timeout env start now
                if code == 0 then stream_loop fuel post start' else pure code)
              else pure ret_progress)
        else pure ret

  unfoldable pub mp_post_send_on_stream : (fuel stream client : ℕ) → Ptr → M W Code
  mp_post_send_on_stream fuel stream client p = if p == null then pure mp_failure else do
    start ← cycles (← call env.get_cycles)
    stream_loop fuel (queue_sr stream client p) start
