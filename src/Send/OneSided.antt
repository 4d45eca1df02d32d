-- ===== src/Send/OneSided.antt =====
-- `mp_iput` and `mp_iget` of src/mp.c.
use libmp.Base.{ℕ, none, some, ◌==◌, ltb, if◌then◌else◌, has_flag}
use libmp.Types.{
  Code, Ptr, mp_failure, mp_put_nowait, MpReqType, MpState, tx_flow, rdma_write, rdma_read,
}
use libmp.Env.{Env}
use libmp.Machine.{M, pure, ◌>>=◌, ◌>>◌, assert, modify, index_of}
use libmp.Pool.{new_stream_request}
use libmp.Post.{mp_post_send, post_sr}
use libmp.Send.Fill.{
  Posted, MpWindow, signaled_only, put_flags, sge, fill_rdma, prepare_wait_cq, posted_if,
}

module _ {W : Type 0} (env : Env W) where
  open env use {config}

  -- `mp_iput` behind the post
  unfoldable pub finish_iput : (client flags : ℕ) → Ptr → (ret : Code) → M W Posted
  finish_iput i flags p ret =
      if ret == 0
      then (if has_flag flags mp_put_nowait
          then pure (0, some p)
          else (do code ← prepare_wait_cq env i tx_flow p; pure (posted_if code p)))
      else pure (ret, none)

  unfoldable pub mp_iput : (src size key peer displ : ℕ) → MpWindow → (flags : ℕ) → M W Posted
  mp_iput src size key peer displ window flags =
      if config.mp_enable_ud then pure (mp_failure, none) else do
        i ← index_of (config.client_index peer)
        assert (ltb displ (window.rsize i))
        p ← new_stream_request env i MpReqType.rdma MpState.pending_nowait
        modify p (λ r.
            fill_rdma (put_flags flags) rdma_write i displ window p (sge src size key)
              (record r { flags = flags }))
        ret ← mp_post_send env i p
        finish_iput i flags p ret

  unfoldable pub mp_iget : (dst size key peer displ : ℕ) → MpWindow → M W Posted
  mp_iget dst size key peer displ window =
      if config.mp_enable_ud then pure (mp_failure, none) else do
        i ← index_of (config.client_index peer)
        assert (ltb displ (window.rsize i))
        p ← new_stream_request env i MpReqType.rdma MpState.pending_nowait
        modify p (fill_rdma signaled_only rdma_read i displ window p (sge dst size key))
        ret ← post_sr env i p
        if ret == 0
            then (do code ← prepare_wait_cq env i tx_flow p; pure (posted_if code p))
            else pure (ret, none)
