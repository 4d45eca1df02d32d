-- ===== src/Stream/Sends.antt =====
-- `mp_send_on_stream`, `mp_isend_on_stream`, `mp_isendv_on_stream`, `mp_send_prepare` and
-- `mp_sendv_prepare` of src/mp_peersync.c.
use libmp.Base.{ℕ, none, some, List, [], ◌∷◌, ◌==◌, ltb, if◌then◌else◌, length}
use libmp.Types.{
  null, trigger_id, write_value32, Code, mp_failure, Ptr, Sge, MpReqType, MpState, tx_flow,
  set_flow,
}
use libmp.Env.{Env}
use libmp.Machine.{
  cycles, M, pure, ◌>>=◌, ◌>>◌, call, load, modify, client_at, modify_client, index_of,
}
use libmp.Pool.{new_stream_request}
use libmp.Posted.{client_track_posted_stream_req}
use libmp.Post.{stream_loop, mp_post_send_on_stream, queue_sr}
use libmp.Send.{Posted, Iovec, sge, sgv_of, fill_send, prepare_wait_cq, attach_sgv, posted_if}
use libmp.Stream.Batch.{and_batch, release_at, block_on, post_batch}

module _ {W : Type 0} (env : Env W) where
  open env use {config}

  -- a new send request, filled in
  unfoldable pub new_send : (client : ℕ) → MpState → List Sge → M W Ptr
  new_send i state entries = do
    p ← new_stream_request env i MpReqType.send state
    c ← client_at i
    modify p (fill_send config.mp_enable_ud c p entries)
    pure p

  -- `gds_prepare_send(client->qp, ..., &req->gds_send_info)`
  unfoldable pub prepare_send : (client : ℕ) → Ptr → M W Code
  prepare_send i p = do
    r ← load p
    (ret, info) ← call (env.gds_prepare_send i r.sr)
    modify p (λ q. record q { gds_send_info = info })
    pure ret

  -- `mp_post_send_on_stream` with that call in its loop; no code of the library calls it
  unfoldable pub mp_prepare_send : (fuel client : ℕ) → Ptr → M W Code
  mp_prepare_send fuel i p =
      if p == null
      then pure mp_failure
      else do start ← cycles (← call env.get_cycles); stream_loop env fuel (prepare_send i p) start

  -- `last_posted_trigger_id = req->id`
  unfoldable pub set_posted_trigger : (client : ℕ) → (id : ℕ) → M W (Unit {0})
  set_posted_trigger i id =
      modify_client i
        (λ d. record d { last_posted_trigger_id = set_flow d.last_posted_trigger_id tx_flow id })

  unfoldable pub mp_send_on_stream : (buf size peer key stream : ℕ) → M W Posted
  mp_send_on_stream buf size peer key stream = do
    i ← index_of (config.client_index peer)
    if config.use_event_sync
        then (do
          p ← new_send i MpState.prepared (sge buf size key ∷ [])
          r ← load p
          set_posted_trigger i r.id
          batch ← release_at env i tx_flow p r.id []
          batch' ← and_batch batch (block_on env i tx_flow tx_flow p r.id)
          ret ← post_batch env stream batch'
          pure (posted_if ret p))
        else (do
          p ← new_send i MpState.pending (sge buf size key ∷ [])
          ret ← queue_sr env stream i p
          if ret == 0
              then (do
                code ← call (env.gds_stream_wait_cq stream i tx_flow)
                pure (posted_if code p))
              else pure (ret, none))

  -- The request joins the posted list behind the descriptors, not before them.
  unfoldable pub isend_event : (client stream : ℕ) → Ptr → (id : ℕ) → M W Code
  isend_event i stream p id = do
    ret ← call (env.gds_prepare_write_value32 (trigger_id i tx_flow) id)
    if ret == 0
        then (do
          code ← call (
              env.gds_stream_post_descriptors stream (write_value32 (trigger_id i tx_flow) id ∷ []))
          if code == 0 then client_track_posted_stream_req i p tx_flow >> pure 0 else pure code)
        else pure ret

  unfoldable pub mp_isend_on_stream : (fuel buf size peer key stream : ℕ) → M W Posted
  mp_isend_on_stream fuel buf size peer key stream = do
    i ← index_of (config.client_index peer)
    if config.use_event_sync
        then (do
          p ← new_send i MpState.prepared (sge buf size key ∷ [])
          r ← load p
          set_posted_trigger i r.id
          ret ← isend_event i stream p r.id
          pure (posted_if ret p))
        else (do
          p ← new_send i MpState.pending_nowait (sge buf size key ∷ [])
          ret ← mp_post_send_on_stream env fuel stream i p
          if ret == 0
              then (do code ← prepare_wait_cq env i tx_flow p; pure (posted_if code p))
              else pure (ret, none))

  -- a new send request with the vector `v`
  unfoldable pub new_sendv : (client : ℕ) → MpState → List Iovec → (key : ℕ) → M W Ptr
  new_sendv i state v key = do
    p ← new_stream_request env i MpReqType.send state
    attach_sgv env p (sgv_of key v)
    c ← client_at i
    modify p (fill_send config.mp_enable_ud c p (sgv_of key v))
    pure p

  unfoldable pub mp_isendv_on_stream : List Iovec → (peer key stream : ℕ) → M W Posted
  mp_isendv_on_stream v peer key stream = do
    i ← index_of (config.client_index peer)
    if config.use_event_sync
        then pure (mp_failure, none)
        else if ltb config.ib_max_sge (length v)
        then pure (mp_failure, none)
        else do
          p ← new_sendv i MpState.pending_nowait v key
          ret ← queue_sr env stream i p
          if ret == 0
              then (do code ← prepare_wait_cq env i tx_flow p; pure (posted_if code p))
              else pure (ret, none)

  -- the sends that are prepared now and posted later, outside the event-synchronous mode
  unfoldable pub prepare_both : (client : ℕ) → Ptr → M W Posted
  prepare_both i p = do
    ret ← prepare_send i p
    if ret == 0
        then (do code ← prepare_wait_cq env i tx_flow p; pure (posted_if code p))
        else pure (ret, none)

  unfoldable pub mp_send_prepare : (buf size peer key : ℕ) → M W Posted
  mp_send_prepare buf size peer key = do
    i ← index_of (config.client_index peer)
    p ← new_send i MpState.prepared (sge buf size key ∷ [])
    if config.use_event_sync then pure (0, some p) else prepare_both i p

  unfoldable pub mp_sendv_prepare : List Iovec → (peer key : ℕ) → M W Posted
  mp_sendv_prepare v peer key = do
    i ← index_of (config.client_index peer)
    if config.use_event_sync
        then pure (mp_failure, none)
        else if ltb config.ib_max_sge (length v)
        then pure (mp_failure, none)
        else do p ← new_sendv i MpState.prepared v key; prepare_both i p
