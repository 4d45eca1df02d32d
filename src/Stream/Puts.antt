-- ===== src/Stream/Puts.antt =====
-- `mp_put_prepare`, `mp_iput_on_stream`, `mp_iget_on_stream`, `mp_iput_post_on_stream` and
-- `mp_iput_post_all_on_stream` of src/mp_peersync.c.
use libmp.Base.{ℕ, none, some, List, [], ◌∷◌, ◌++◌, ◌==◌, ltb, leb, if◌then◌else◌, has_flag, length}
use libmp.Types.{
  Code, mp_failure, enomem, mp_put_nowait, Ptr, MpReqType, MpState, tx_flow, is_prepared,
  rdma_write, rdma_read,
}
use libmp.Env.{Env}
use libmp.Machine.{M, pure, ◌>>=◌, ◌>>◌, assert, call, load, modify, index_of}
use libmp.Pool.{new_stream_request, release_mp_request}
use libmp.Post.{mp_post_send_on_stream, queue_sr}
use libmp.Send.{
  Posted, MpWindow, signaled_only, put_flags, sge, fill_rdma, prepare_wait_cq, posted_if,
}
use libmp.Stream.Sends.{prepare_send}
use libmp.Stream.Posts.{collect}

module _ {W : Type 0} (env : Env W) where
  open env use {config}

  -- `if (ret) release_mp_request(req)`, behind the label `out`
  unfoldable pub out_put : Ptr → Code → M W Posted
  out_put p ret = if ret == 0 then pure (0, some p) else release_mp_request p >> pure (ret, none)

  -- a new put, filled in
  unfoldable pub new_put :
      (client : ℕ) → MpState → (src size key displ : ℕ) → MpWindow → (flags : ℕ) → M W Ptr
  new_put i state src size key displ window flags = do
    assert (ltb displ (window.rsize i))
    p ← new_stream_request env i MpReqType.rdma state
    modify p (λ r.
        fill_rdma (put_flags flags) rdma_write i displ window p (sge src size key)
          (record r { flags = flags }))
    pure p

  -- `mp_put_prepare` behind the work request
  unfoldable pub finish_put : (client flags : ℕ) → Ptr → M W Posted
  finish_put i flags p = do
    ret ← prepare_send env i p
    if ret == 0
        then (if has_flag flags mp_put_nowait
            then pure (0, some p)
            else (do code ← prepare_wait_cq env i tx_flow p; out_put p code))
        else out_put p ret

  unfoldable pub mp_put_prepare :
      (src size key peer displ : ℕ) → MpWindow → (flags : ℕ) → M W Posted
  mp_put_prepare src size key peer displ window flags =
      if config.mp_enable_ud then pure (mp_failure, none) else do
        i ← index_of (config.client_index peer)
        p ← new_put i MpState.prepared src size key displ window flags
        finish_put i flags p

  unfoldable pub mp_iput_on_stream :
      (fuel src size key peer displ : ℕ) → MpWindow → (flags stream : ℕ) → M W Posted
  mp_iput_on_stream fuel src size key peer displ window flags stream =
      if config.mp_enable_ud then pure (mp_failure, none) else do
        i ← index_of (config.client_index peer)
        p ← new_put i MpState.pending_nowait src size key displ window flags
        ret ← mp_post_send_on_stream env fuel stream i p
        if ret == 0
            then (if has_flag flags mp_put_nowait
                then modify p (λ r. record r { status = MpState.complete }) >> pure (0, some p)
                else (do code ← prepare_wait_cq env i tx_flow p; out_put p code))
            else out_put p ret

  unfoldable pub mp_iget_on_stream :
      (dst size key peer displ : ℕ) → MpWindow → (stream : ℕ) → M W Posted
  mp_iget_on_stream dst size key peer displ window stream =
      if config.mp_enable_ud then pure (mp_failure, none) else do
        i ← index_of (config.client_index peer)
        assert (ltb displ (window.rsize i))
        p ← new_stream_request env i MpReqType.rdma MpState.pending_nowait
        modify p (fill_rdma signaled_only rdma_read i displ window p (sge dst size key))
        ret ← queue_sr env stream i p
        if ret == 0
            then (do code ← prepare_wait_cq env i tx_flow p; pure (posted_if code p))
            else pure (ret, none)

  -- the status of a put that is on the stream
  abbrev pub put_state : (flags : ℕ) → MpState
  put_state flags =
      if has_flag flags mp_put_nowait then MpState.complete else MpState.pending_nowait

  unfoldable pub mp_iput_post_on_stream : Ptr → (stream : ℕ) → M W Code
  mp_iput_post_on_stream p stream = do
    r ← load p
    assert (is_prepared r.status)
    ret ← call (env.gds_stream_post_send stream r.gds_send_info)
    if ret == 0 then modify p (λ q. record q { status = put_state q.flags }) >> pure 0 else pure ret

  unfoldable pub mark_put : Ptr → List ℕ → M W (Code × List ℕ)
  mark_put p infos = do
    r ← load p
    assert (is_prepared r.status)
    modify p (λ q. record q { status = MpState.pending_nowait })
    pure (0, infos ++ r.gds_send_info ∷ [])

  unfoldable pub post_puts : List Ptr → (stream : ℕ) → M W Code
  post_puts reqs stream = do
    (_, infos) ← collect mark_put reqs []
    call (env.gds_stream_post_send_all stream infos)

  unfoldable pub mp_iput_post_all_on_stream : List Ptr → (stream : ℕ) → M W Code
  mp_iput_post_all_on_stream reqs stream =
      if leb (length reqs) 8
      then post_puts reqs stream
      else do given ← call env.malloc; if given then post_puts reqs stream else pure enomem
