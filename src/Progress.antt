-- ===== src/Progress.antt =====
-- Completions: `cleanup_request`, `progress_request`, `client_can_poll`,
-- `mp_progress_single_flow` and `mp_progress_all` of src/mp.c.
pub mod Complete
pub mod Engine
pub mod Count
pub mod Caught
use libmp.Base.{ℕ, zero, suc, ◌+◌, ◌&&◌, ◌||◌, none, List, [], ◌∷◌, ◌==◌, ltb, if◌then◌else◌, min}
use libmp.Types.{
  Code, mp_failure, Ptr, null, Request, MpState, undef, prepared, pending_nowait, pending, complete,
  n_states, MpFlow, tx_flow, rx_flow, at_flow, set_flow, is_pending, is_pending_nowait, is_complete,
  Wc, Polled, poll_error, entries,
}
use libmp.Env.{Env}
use libmp.Machine.{
  out_of_fuel, M, pure, ◌>>=◌, ◌>>◌, assert, exit_unless, gets, call, load, modify, client_at,
  modify_client, for_clients,
}
use libmp.Posted.{progress_posted_list}

-- `cleanup_request`
abbrev pub cleanup_request : Request → Request
cleanup_request r = record r { sgv = none }

-- the switch of `progress_request`, on the request's status
abbrev pub advance : MpState → Request → Request
advance pending_nowait r = cleanup_request (record r { status = complete })
advance pending r = cleanup_request (record r { status = complete })
advance prepared r = r
advance complete r = r
advance undef r = r
advance n_states r = r

module _ {W : Type 0} where
  unfoldable pub progress_request : Ptr → M W Code
  progress_request p = modify p (λ r. advance r.status r) >> pure 0

  -- The loop of `client_can_poll` over the waited requests; the result is the count and the
  -- request at which it stops.
  unfoldable pub can_poll_loop : (fuel client : ℕ) → MpFlow → Ptr → ℕ → M W (ℕ × Ptr)
  can_poll_loop zero client flow p ret = λ _. out_of_fuel
  can_poll_loop (suc fuel) client flow p ret = if p == null then pure (ret, p) else do
    c ← client_at client
    r ← load p
    if ltb (at_flow c.last_tracked_id flow) r.id
        then pure (ret, p)
        else can_poll_loop fuel client flow r.next (ret + 1)

module _ {W : Type 0} (env : Env W) where
  open env use {config}

  unfoldable pub client_can_poll : (client : ℕ) → MpFlow → M W ℕ
  client_can_poll client flow = if config.use_event_sync then pure config.cq_poll_count else do
    c ← client_at client
    fuel ← gets (λ s. s.brk)
    (ret, p) ← can_poll_loop fuel client flow (at_flow c.waited_stream_req flow) 0
    pure (if p == null then config.cq_poll_count else ret)

  -- under `use_event_sync`, the id that the stream waits for
  unfoldable pub track_done : (client : ℕ) → MpFlow → Request → M W (Unit {0})
  track_done client flow r =
      if config.use_event_sync && r.trigger
      then (do
        c ← client_at client
        assert (ltb (at_flow c.last_tracked_id flow) r.id)
        modify_client client
            (λ d. record d { last_tracked_id = set_flow d.last_tracked_id flow r.id }))
      else pure tt

  -- what follows the tests in the body of that loop
  unfoldable pub finish_entry : (client : ℕ) → MpFlow → Ptr → Request → M W (Unit {0})
  finish_entry client flow p r = do
    track_done client flow r
    modify_client client (λ d. record d { last_done_id = r.id })
    progress_request p >> pure tt

  -- the body of the loop over the polled entries
  unfoldable pub complete_entry : (client : ℕ) → MpFlow → Wc → M W (Unit {0})
  complete_entry client flow wc = do
    exit_unless wc.success
    if wc.wr_id == null then pure tt else do
      r ← load wc.wr_id
      exit_unless (is_pending_nowait r.status || is_pending r.status)
      finish_entry client flow wc.wr_id r

  unfoldable pub complete_all : (client : ℕ) → MpFlow → List Wc → M W (Unit {0})
  complete_all client flow [] = pure tt
  complete_all client flow (wc ∷ wcs) =
      complete_entry client flow wc >> complete_all client flow wcs

  abbrev pub handle_polled : (client : ℕ) → MpFlow → Polled → M W Code
  handle_polled client flow poll_error = pure mp_failure
  handle_polled client flow (entries wcs) = complete_all client flow wcs >> pure 0

  -- the body of the loop over the clients
  unfoldable pub poll_client : MpFlow → (client : ℕ) → M W Code
  poll_client flow client = do
    n ← client_can_poll client flow
    let cqe_count = min n config.cq_poll_count
    if cqe_count == 0 then pure 0 else do
      polled ← call (env.ibv_poll_cq client flow cqe_count)
      handle_polled client flow polled

  -- The result of `progress_posted_list` is not looked at.
  unfoldable pub mp_progress_single_flow : MpFlow → M W Code
  mp_progress_single_flow flow = do
    progress_posted_list env flow
    for_clients config.client_count 0 (poll_client flow)

  -- both flows, the transmit flow first
  unfoldable pub progress_flows : M W Code
  progress_flows = do
    ret ← mp_progress_single_flow tx_flow
    if ret == 0 then mp_progress_single_flow rx_flow else pure ret

  -- the loop of `mp_progress_all`, with the count so far; a code that is not 0 leaves it
  unfoldable pub progress_all_loop : List Ptr → (completed : ℕ) → M W ℕ
  progress_all_loop [] completed = pure completed
  progress_all_loop (p ∷ reqs) completed = do
    r ← load p
    if is_complete r.status then progress_all_loop reqs (completed + 1) else do
      ret ← progress_flows
      if ret == 0
          then (do
            after ← load p
            progress_all_loop reqs (if is_complete after.status then completed + 1 else completed))
          else pure ret

  -- The result is the number of complete requests, or a code.
  unfoldable pub mp_progress_all : List Ptr → M W ℕ
  mp_progress_all reqs = progress_all_loop reqs 0
