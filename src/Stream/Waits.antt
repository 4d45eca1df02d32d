-- ===== src/Stream/Waits.antt =====
-- `mp_wait_on_stream`, `mp_wait_all_on_stream` and `mp_wait32_on_stream` of src/mp_peersync.c, and
-- `mp_wait32` of src/mp.c.
use libmp.Base.{
  ℕ, Bool, true, false, not, ◌||◌, Option, none, some, List, [], ◌∷◌, ◌++◌, ◌==◌, ltb, leb,
  if◌then◌else◌, length,
}
use Prim.Native.Nat.{bit_and}
use libmp.Types.{
  Code, einval, Ptr, MpReqType, none_type, MpState, complete, n_states, is_complete,
  is_pending_nowait, Desc, WaitCond, cond_geq, user_word, wait_value32,
}
use libmp.Env.{Env}
use libmp.Machine.{
  M, pure, ◌>>=◌, ◌>>◌, assert, call, load, modify, index_of, mp_type_to_flow, req_can_be_waited,
}
use libmp.Stream.Batch.{Batch, block_on, post_batch}
use libmp.Stream.Posts.{collect, info_array}

-- `req->type > 0`
abbrev pub is_set : MpReqType → Bool
is_set none_type = false
is_set _ = true

-- `req->status <= MP_PENDING`
abbrev pub at_most_pending : MpState → Bool
at_most_pending complete = false
at_most_pending n_states = false
at_most_pending _ = true

-- `enum mp_wait_flags`; `other` is any other number
pub data MpWaitFlags : Type 0 where
  wait_geq wait_eq wait_and other : MpWaitFlags

-- the switch of `mp_wait32`, on the word as it is read
abbrev pub wait32_test : MpWaitFlags → (word value : ℕ) → Option Bool
wait32_test wait_eq word value = some (ltb value word)
wait32_test wait_geq word value = some (leb value word)
wait32_test wait_and word value = some (not (bit_and word value == 0))
wait32_test other word value = none

-- `mp_wait32` on the values that the word takes, one for each round; `none` when those end before
-- the loop does
unfoldable pub mp_wait32 : List ℕ → (value : ℕ) → MpWaitFlags → Option Code
mp_wait32 [] value flags = none
mp_wait32 (word ∷ words) value flags = elim (wait32_test flags word value) [
  | none ↦ some einval
  | some true ↦ some 0
  | some false ↦ mp_wait32 words value flags
]

-- the condition that `mp_wait32_on_stream` asks of the stream
abbrev pub wait32_cond : MpWaitFlags → Option WaitCond
wait32_cond wait_eq = some cond_geq
wait32_cond wait_geq = some cond_geq
wait32_cond wait_and = some cond_geq
wait32_cond other = none

module _ {W : Type 0} (env : Env W) where
  open env use {config}

  -- the stream waits for the tracked id of `p`, unless it waits for a later one already
  unfoldable pub wait_id : Ptr → List Desc → M W Batch
  wait_id p descs = do
    r ← load p
    i ← index_of (config.client_index r.peer)
    flow ← mp_type_to_flow r.type
    block_on env i flow flow p r.id descs

  -- the wait of `p` as pending on `stream`
  unfoldable pub mark_waited : (stream : ℕ) → Ptr → M W (Unit {0})
  mark_waited stream p = do
    r ← load p
    assert (is_pending_nowait r.status || is_complete r.status)
    modify p (λ q. record q { stream = stream; status = MpState.pending })

  -- With nothing new to wait for, nothing is posted.
  abbrev pub post_some : (stream : ℕ) → Batch → M W Code
  post_some stream (ret, []) = pure ret
  post_some stream (ret, d ∷ descs) = post_batch env stream (ret, d ∷ descs)

  unfoldable pub mp_wait_on_stream : Ptr → (stream : ℕ) → M W Code
  mp_wait_on_stream p stream = do
    r ← load p
    index_of (config.client_index r.peer)
    if config.use_event_sync
        then (do
          assert (is_set r.type)
          if is_complete r.status
              then pure 0
              else (do batch ← wait_id p []; post_some stream batch))
        else (do
          can ← req_can_be_waited r
          if can
              then (do
                mark_waited stream p
                call (env.gds_stream_post_wait_cq stream r.gds_wait_info))
              else pure einval)

  unfoldable pub wait_id_checked : Ptr → List Desc → M W Batch
  wait_id_checked p descs = do
    r ← load p
    assert (is_set r.type)
    assert (at_most_pending r.status)
    wait_id p descs

  unfoldable pub mark_waited_checked : (stream : ℕ) → Ptr → List ℕ → M W (Code × List ℕ)
  mark_waited_checked stream p infos = do
    r ← load p
    can ← req_can_be_waited r
    if can
        then mark_waited stream p >> pure (0, infos ++ r.gds_wait_info ∷ [])
        else pure (einval, infos)

  unfoldable pub mp_wait_all_on_stream : List Ptr → (stream : ℕ) → M W Code
  mp_wait_all_on_stream reqs stream =
      if length reqs == 0
      then pure 0
      else if config.use_event_sync
      then (do batch ← collect wait_id_checked reqs []; post_batch env stream batch)
      else (do
        info_array env (length reqs)
        (ret, infos) ← collect (mark_waited_checked stream) reqs []
        if ret == 0 then call (env.gds_stream_post_wait_cq_all stream infos) else pure ret)

  unfoldable pub wait32_with : (ptr value stream : ℕ) → Option WaitCond → M W Code
  wait32_with ptr value stream none = pure einval
  wait32_with ptr value stream (some cond) = do
    ret ← call (env.gds_prepare_wait_value32 (user_word ptr) value cond)
    post_batch env stream (ret, wait_value32 (user_word ptr) value cond ∷ [])

  unfoldable pub mp_wait32_on_stream : (ptr value : ℕ) → MpWaitFlags → (stream : ℕ) → M W Code
  mp_wait32_on_stream ptr value flags stream = wait32_with ptr value stream (wait32_cond flags)
