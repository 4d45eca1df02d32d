-- ===== src/Send/TwoSided.antt =====
-- `mp_irecv`, `mp_irecvv`, `mp_isend` and `mp_isendv` of src/mp.c.
use libmp.Base.{
  ℕ, Bool, true, false, ◌&&◌, Option, none, some, List, [], ◌∷◌, ◌==◌, ltb, if◌then◌else◌, length,
}
use libmp.Types.{mp_failure, Ptr, Sge, MpReqType, MpState, tx_flow, rx_flow, IpcHandleCacheEntry}
use libmp.Env.{Env}
use libmp.Machine.{M, pure, ◌>>=◌, ◌>>◌, modify, client_at, index_of}
use libmp.Pool.{new_stream_request}
use libmp.Post.{mp_post_send, mp_post_recv, post_sr, post_rr}
use libmp.Ipc.{ipc_handle_cache_find, new_entry, put_slot, track_ipc_stream_rreq}
use libmp.Send.Fill.{
  Posted, Iovec, sge, sgv_of, fill_send, fill_recv, prepare_wait_cq, attach_sgv, posted_if,
}

module _ {W : Type 0} (env : Env W) where
  open env use {config}

  -- The wait is prepared here unless the stream waits for ids.
  unfoldable pub wait_unless_event_sync : (client : ℕ) → (flow : Bool) → Ptr → M W Posted
  wait_unless_event_sync client tx p = if config.use_event_sync then pure (0, some p) else (do
    ret ← prepare_wait_cq env client (if tx then tx_flow else rx_flow) p
    pure (posted_if ret p))

  -- `mp_irecv`. `ud_padding` is the entry for the global `ud_padding` buffer.
  unfoldable pub mp_irecv : (ud_padding : Sge) → (buf size peer key : ℕ) → M W Posted
  mp_irecv ud_padding buf size peer key = do
    i ← index_of (config.client_index peer)
    p ← new_stream_request env i MpReqType.recv MpState.pending_nowait
    c ← client_at i
    if config.mp_enable_ipc && c.can_use_ipc
        then track_ipc_stream_rreq env peer p >> pure (0, some p)
        else (do
          modify p (fill_recv config.mp_enable_ud ud_padding p (sge buf size key))
          ret ← mp_post_recv env i p
          if ret == 0 then wait_unless_event_sync i false p else pure (ret, none))

  unfoldable pub mp_irecvv : List Iovec → (peer key : ℕ) → M W Posted
  mp_irecvv v peer key = if ltb config.ib_max_sge (length v) then pure (mp_failure, none) else do
    i ← index_of (config.client_index peer)
    p ← new_stream_request env i MpReqType.recv MpState.pending_nowait
    attach_sgv env p (sgv_of key v)
    modify p (λ r. record r { rr = record { wr_id = p; sg_list = sgv_of key v } })
    ret ← post_rr env i p
    if ret == 0 then wait_unless_event_sync i false p else pure (ret, none)

  -- the entry for `buf`, from the cache or new
  unfoldable pub find_or_add : (buf size : ℕ) → M W (Option IpcHandleCacheEntry)
  find_or_add buf size = do
    found ← ipc_handle_cache_find env buf size config.mpi_comm_rank
    elim found [ some e ↦ pure (some e) | none ↦ new_entry env buf ]

  unfoldable pub isend_ipc : (client buf size : ℕ) → Ptr → Option IpcHandleCacheEntry → M W Posted
  isend_ipc i buf size p none = pure (mp_failure, none)
  isend_ipc i buf size p (some e) = put_slot env i buf size p e >> pure (0, some p)

  unfoldable pub mp_isend : (buf size peer key : ℕ) → M W Posted
  mp_isend buf size peer key = do
    i ← index_of (config.client_index peer)
    p ← new_stream_request env i MpReqType.send MpState.pending_nowait
    c ← client_at i
    if config.mp_enable_ipc && c.can_use_ipc
        then (do e ← find_or_add buf size; isend_ipc i buf size p e)
        else (do
          modify p (fill_send config.mp_enable_ud c p (sge buf size key ∷ []))
          ret ← mp_post_send env i p
          if ret == 0 then wait_unless_event_sync i true p else pure (ret, none))

  -- `mp_isendv` has no `*req_t = req`.
  unfoldable pub mp_isendv : List Iovec → (peer key : ℕ) → M W Posted
  mp_isendv v peer key = if ltb config.ib_max_sge (length v) then pure (mp_failure, none) else do
    i ← index_of (config.client_index peer)
    p ← new_stream_request env i MpReqType.send MpState.pending_nowait
    attach_sgv env p (sgv_of key v)
    c ← client_at i
    modify p (fill_send config.mp_enable_ud c p (sgv_of key v))
    ret ← post_sr env i p
    if ret == 0
        then (do (code, _) ← wait_unless_event_sync i true p; pure (code, none))
        else pure (ret, none)
