-- ===== src/DescQueue.antt =====
-- The descriptor queue of src/desc_queue.cpp: operations that the caller collects and posts on a
-- stream as one batch. A queue is the list of what was added to it; `none` is a NULL handle.
pub mod Order
use libmp.Base.{
  ℕ, Bool, true, false, ◌||◌, Option, none, some, List, [], ◌∷◌, ◌++◌, ◌==◌, if◌then◌else◌, length,
}
use libmp.Types.{
  Code, Ptr, MpState, is_prepared, is_pending_nowait, is_complete, is_tx, is_rx, is_live_type,
  Request, Desc, send_desc, wait_desc, wait_value32, write_value32, user_word, WaitCond,
}
use libmp.Env.{Env}
use libmp.Machine.{
  Fault, M, pure, fail, ◌>>=◌, ◌>>◌, assert, gets, call, load, modify, req_can_be_waited,
}

-- A descriptor as the queue holds it. A send and a wait point at `gds_send_info` and at
-- `gds_wait_info` of their request, which are read when the queue is posted.
pub data QueuedDesc : Type 0 where
  queued_send queued_wait : Ptr → QueuedDesc
  queued_desc : Desc → QueuedDesc

abbrev pub MpDescQueue : Type 0
MpDescQueue = Option (List QueuedDesc)

-- the descriptors with what they point at
abbrev pub resolve : (Ptr → Request) → QueuedDesc → Desc
resolve h (queued_send p) = send_desc (h p).gds_send_info
resolve h (queued_wait p) = wait_desc (h p).gds_wait_info
resolve h (queued_desc d) = d

unfoldable pub resolve_all : (Ptr → Request) → List QueuedDesc → List Desc
resolve_all h [] = []
resolve_all h (d ∷ descs) = resolve h d ∷ resolve_all h descs

-- `add`
abbrev pub add : QueuedDesc → List QueuedDesc → Code × MpDescQueue
add d descs = (0, some (descs ++ d ∷ []))

module _ {W : Type 0} where
  -- `assert(dq)`
  abbrev pub opened : MpDescQueue → M W (List QueuedDesc)
  opened none = fail Fault.assertion
  opened (some descs) = pure descs

  unfoldable pub mp_desc_queue_alloc : M W (Code × MpDescQueue)
  mp_desc_queue_alloc = pure (0, some [])

  unfoldable pub mp_desc_queue_free : MpDescQueue → M W (Code × MpDescQueue)
  mp_desc_queue_free dq = do opened dq; pure (0, none)

  -- `req_type_tx` and `req_type_rx`, with the assertion in them
  abbrev pub assert_tx : Request → M W (Unit {0})
  assert_tx r = assert (is_live_type r.type) >> assert (is_tx r.type)

  abbrev pub assert_rx : Request → M W (Unit {0})
  assert_rx r = assert (is_live_type r.type) >> assert (is_rx r.type)

  unfoldable pub mp_desc_queue_add_send : MpDescQueue → Ptr → M W (Code × MpDescQueue)
  mp_desc_queue_add_send dq p = do
    descs ← opened dq
    r ← load p
    assert_tx r
    assert (is_prepared r.status)
    modify p (λ q. record q { status = MpState.pending_nowait })
    pure (add (queued_send p) descs)

  unfoldable pub mp_desc_queue_add_wait_send : MpDescQueue → Ptr → M W (Code × MpDescQueue)
  mp_desc_queue_add_wait_send dq p = do
    descs ← opened dq
    r ← load p
    assert_tx r
    can ← req_can_be_waited r
    assert can
    assert (is_pending_nowait r.status || is_complete r.status)
    modify p (λ q. record q { status = MpState.pending })
    pure (add (queued_wait p) descs)

  unfoldable pub mp_desc_queue_add_wait_recv : MpDescQueue → Ptr → M W (Code × MpDescQueue)
  mp_desc_queue_add_wait_recv dq p = do
    descs ← opened dq
    r ← load p
    assert_rx r
    assert (is_pending_nowait r.status || is_complete r.status)
    modify p (λ q. record q { status = MpState.pending })
    pure (add (queued_wait p) descs)

  -- the condition is `none` for flags out of range
  unfoldable pub mp_desc_queue_add_wait_value32 :
      MpDescQueue → (ptr value : ℕ) → Option WaitCond → M W (Code × MpDescQueue)
  mp_desc_queue_add_wait_value32 dq ptr value none = do opened dq; fail Fault.assertion
  mp_desc_queue_add_wait_value32 dq ptr value (some cond) = do
    descs ← opened dq
    pure (add (queued_desc (wait_value32 (user_word ptr) value cond)) descs)

  unfoldable pub mp_desc_queue_add_write_value32 :
      MpDescQueue → (ptr value : ℕ) → M W (Code × MpDescQueue)
  mp_desc_queue_add_write_value32 dq ptr value = do
    descs ← opened dq
    pure (add (queued_desc (write_value32 (user_word ptr) value)) descs)

module _ {W : Type 0} (env : Env W) where
  unfoldable pub mp_desc_queue_post_on_stream :
      (stream : ℕ) → MpDescQueue → M W (Code × MpDescQueue)
  mp_desc_queue_post_on_stream stream dq = do
    descs ← opened dq
    if length descs == 0 then pure (0, some descs) else (do
      batch ← gets (λ s. resolve_all s.reqs descs)
      ret ← call (env.gds_stream_post_descriptors stream batch)
      pure (ret, some []))
