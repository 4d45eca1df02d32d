-- ===== src/Stream/Batch.antt =====
-- Batches of stream descriptors, as src/mp_peersync.c builds them for the event-synchronous mode:
-- a write of the trigger id that releases a request, and a wait for its tracked id.
use libmp.Base.{ℕ, Bool, true, false, List, [], ◌∷◌, ◌++◌, ◌==◌, ltb, leb, if◌then◌else◌}
use libmp.Types.{
  Code, Ptr, MpFlow, tx_flow, at_flow, set_flow, Desc, write_value32, wait_value32, trigger_id,
  tracked_id, cond_geq,
}
use libmp.Env.{Env}
use libmp.Machine.{M, pure, ◌>>=◌, ◌>>◌, call, modify, client_at, modify_client}
use libmp.Posted.{client_track_posted_stream_req}

-- a code, and the descriptors so far
abbrev pub Batch : Type 0
Batch = Code × List Desc

-- goes on with the batch unless there is an error
abbrev pub and_batch : {W : Type 0} → Batch → (List Desc → M W Batch) → M W Batch
and_batch (ret, descs) k = if ret == 0 then k descs else pure (ret, descs)

module _ {W : Type 0} where
  -- The guard of the operations that post prepared requests: ids must be posted in the order in
  -- which they were given out. `true` if it passes, with the new id stored.
  unfoldable pub advance_trigger : (client : ℕ) → MpFlow → (id : ℕ) → M W Bool
  advance_trigger client flow id = do
    c ← client_at client
    if leb id (at_flow c.last_posted_trigger_id flow) then pure false else (do
      modify_client client
          (λ d. record d { last_posted_trigger_id = set_flow d.last_posted_trigger_id flow id })
      pure true)

module _ {W : Type 0} (env : Env W) where
  -- Delay the posting until the stream has reached this id: one write, and the request joins the
  -- list of posted requests.
  unfoldable pub release_at : (client : ℕ) → MpFlow → Ptr → (id : ℕ) → List Desc → M W Batch
  release_at client flow p id descs = do
    ret ← call (env.gds_prepare_write_value32 (trigger_id client flow) id)
    let descs' = descs ++ write_value32 (trigger_id client flow) id ∷ []
    if ret == 0
        then client_track_posted_stream_req client p tx_flow >> pure (0, descs')
        else pure (ret, descs')

  -- Block the stream on completion of this request, unless it waits for a later id already. The
  -- watermark that is read is that of `mark`, the word that is polled that of `flow`.
  unfoldable pub block_on :
      (client : ℕ) → (mark flow : MpFlow) → Ptr → (id : ℕ) → List Desc → M W Batch
  block_on client mark flow p id descs = do
    c ← client_at client
    if ltb (at_flow c.last_posted_tracked_id mark) id
        then (do
          modify p (λ r. record r { trigger = true })
          modify_client client
              (λ d. record d { last_posted_tracked_id = set_flow d.last_posted_tracked_id mark id })
          ret ← call (env.gds_prepare_wait_value32 (tracked_id client flow) id cond_geq)
          pure (ret, descs ++ wait_value32 (tracked_id client flow) id cond_geq ∷ []))
        else pure (0, descs)

  -- `gds_stream_post_descriptors`, if the batch was built
  unfoldable pub post_batch : (stream : ℕ) → Batch → M W Code
  post_batch stream (ret, descs) =
      if ret == 0 then call (env.gds_stream_post_descriptors stream descs) else pure ret
