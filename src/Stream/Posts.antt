-- ===== src/Stream/Posts.antt =====
-- `mp_send_post_on_stream`, `mp_isend_post_on_stream`, `mp_send_post_all_on_stream` and
-- `mp_isend_post_all_on_stream` of src/mp_peersync.c.
use libmp.Base.{ℕ, Bool, true, false, List, [], ◌∷◌, ◌++◌, ◌==◌, leb, if◌then◌else◌, length}
use libmp.Types.{
  Code, mp_failure, Ptr, MpState, tx_flow, is_prepared, Desc, trigger_id, write_value32,
}
use libmp.Env.{Env}
use libmp.Machine.{
  Fault, M, pure, fail, ◌>>=◌, ◌>>◌, assert, call, load, modify, index_of, mp_type_to_flow,
}
use libmp.Posted.{client_track_posted_stream_req}
use libmp.Stream.Batch.{Batch, and_batch, advance_trigger, release_at, block_on, post_batch}

-- One after the other, with the values collected; a code that is not 0 leaves the loop.
unfoldable pub collect :
    {W A : Type 0} → (Ptr → List A → M W (Code × List A)) → List Ptr → List A → M W (Code × List A)
collect body [] out = pure (0, out)
collect body (p ∷ reqs) out = do
  (ret, out') ← body p out
  if ret == 0 then collect body reqs out' else pure (ret, out')

abbrev pub firsts : List (ℕ × ℕ) → List ℕ
firsts [] = []
firsts ((a, b) ∷ xs) = a ∷ firsts xs

abbrev pub seconds : List (ℕ × ℕ) → List ℕ
seconds [] = []
seconds ((a, b) ∷ xs) = b ∷ seconds xs

module _ {W : Type 0} (env : Env W) where
  open env use {config}

  -- The guard and the release of one prepared request, and what else it puts into the batch.
  unfoldable pub post_prepared : (block : Bool) → Ptr → List Desc → M W Batch
  post_prepared block p descs = do
    r ← load p
    i ← index_of (config.client_index r.peer)
    flow ← mp_type_to_flow r.type
    in_order ← advance_trigger i flow r.id
    if in_order
        then (do
          batch ← release_at env i flow p r.id descs
          if block then and_batch batch (block_on env i tx_flow flow p r.id) else pure batch)
        else pure (mp_failure, descs)

  -- an array of `count` entries, on the stack up to 8, from an unchecked `malloc` beyond
  unfoldable pub info_array : (count : ℕ) → M W (Unit {0})
  info_array count =
      if leb count 8
      then pure tt
      else do given ← call env.malloc; if given then pure tt else fail Fault.bad_access

  unfoldable pub mp_send_post_on_stream : Ptr → (stream : ℕ) → M W Code
  mp_send_post_on_stream p stream = do
    r ← load p
    assert (is_prepared r.status)
    modify p (λ q. record q { stream = stream })
    if config.use_event_sync
        then (do batch ← post_prepared true p []; post_batch env stream batch)
        else (do
          modify p (λ q. record q { status = MpState.pending })
          ret ← call (env.gds_stream_post_send stream r.gds_send_info)
          if ret == 0 then call (env.gds_stream_post_wait_cq stream r.gds_wait_info) else pure ret)

  -- The test behind the first call reads `ret`, which is 0 there, so the descriptor is posted
  -- whatever that call says.
  unfoldable pub isend_post_event : Ptr → (stream : ℕ) → M W Code
  isend_post_event p stream = do
    r ← load p
    i ← index_of (config.client_index r.peer)
    flow ← mp_type_to_flow r.type
    in_order ← advance_trigger i flow r.id
    if in_order
        then (do
          retcode ← call (env.gds_prepare_write_value32 (trigger_id i flow) r.id)
          ret ←
              call (
                env.gds_stream_post_descriptors stream
                  (write_value32 (trigger_id i flow) r.id ∷ []))
          if retcode == 0
              then client_track_posted_stream_req i p tx_flow >> pure ret
              else pure mp_failure)
        else pure mp_failure

  unfoldable pub mp_isend_post_on_stream : Ptr → (stream : ℕ) → M W Code
  mp_isend_post_on_stream p stream = do
    r ← load p
    assert (is_prepared r.status)
    modify p (λ q. record q { stream = stream })
    if config.use_event_sync then isend_post_event p stream else (do
      modify p (λ q. record q { status = MpState.pending_nowait })
      call (env.gds_stream_post_send stream r.gds_send_info))

  -- the loop outside the event-synchronous mode, which leaves the requests as they are
  unfoldable pub gather_infos : Ptr → List (ℕ × ℕ) → M W (Code × List (ℕ × ℕ))
  gather_infos p infos = do
    r ← load p
    assert (is_prepared r.status)
    pure (0, infos ++ (r.gds_send_info, r.gds_wait_info) ∷ [])

  unfoldable pub mp_send_post_all_on_stream : List Ptr → (stream : ℕ) → M W Code
  mp_send_post_all_on_stream reqs stream =
      if config.use_event_sync
      then (do batch ← collect (post_prepared true) reqs []; post_batch env stream batch)
      else (do
        info_array (length reqs)
        info_array (length reqs)
        (_, infos) ← collect gather_infos reqs []
        ret ← call (env.gds_stream_post_send_all stream (firsts infos))
        if ret == 0
            then call (env.gds_stream_post_wait_cq_all stream (seconds infos))
            else pure ret)

  -- a failed write becomes `MP_FAILURE`
  unfoldable pub isend_prepared : Ptr → List Desc → M W Batch
  isend_prepared p descs = do
    (ret, descs') ← post_prepared false p descs
    pure (if ret == 0 then 0 else mp_failure, descs')

  unfoldable pub mark_posted : (stream : ℕ) → Ptr → List ℕ → M W (Code × List ℕ)
  mark_posted stream p infos = do
    r ← load p
    assert (is_prepared r.status)
    modify p (λ q. record q { stream = stream; status = MpState.pending_nowait })
    pure (0, infos ++ r.gds_send_info ∷ [])

  unfoldable pub mp_isend_post_all_on_stream : List Ptr → (stream : ℕ) → M W Code
  mp_isend_post_all_on_stream reqs stream =
      if config.use_event_sync
      then (do batch ← collect isend_prepared reqs []; post_batch env stream batch)
      else (do
        info_array (length reqs)
        (_, infos) ← collect (mark_posted stream) reqs []
        call (env.gds_stream_post_send_all stream infos))
