-- ===== src/Tests/StreamTests.antt =====
-- The theorems on the stream operations at concrete states.
use libmp.DescQueue.{queued_wait}
use libmp.DescQueue.Order.{Handed, send_and_wait, send_and_wait-Handed}
use libmp.Base.{some, ◌≢◌, ◌⊎◌, All, refl, true, [], ◌∷◌, arith, update}
use libmp.Types.{Ptr, Request, MpReqType, MpState, tx_flow}
use libmp.Machine.{State}
use libmp.Machine.Outcome.{Ensures, Returns}
use libmp.Send.{MpWindow}
use libmp.Stream.{
  collect, post_prepared, isend_prepared, mp_send_post_all_on_stream, mp_put_prepare,
  mp_send_prepare, wait_id_checked,
}
use libmp.Triggers.{Between}
use libmp.Triggers.Tracked.{Climbing}
use libmp.Triggers.Waited.{Awaited, collect-Climbing}
use libmp.Triggers.Batches.{post_all-Between}
use libmp.Stranded.{Stranded, mp_send_post_all-Stranded}
use libmp.Returned.{Given, mp_put_prepare-Given}
use libmp.Returned.Sends.{Kept, mp_send_prepare-Kept}
use libmp.Tests.Setup.{Script, plain, event_mode, blank, pooled, pooled-FreeList}

-- requests 7 and 8 are prepared sends to rank 1, with the ids 3 and 5
abbrev ready : State Script
ready = record (pooled []) {
  brk = 9;
  reqs =
      update
        (update (pooled []).reqs 7
          (record blank { type = MpReqType.send; peer = 1; status = MpState.prepared; id = 3 }))
        8 (record blank { type = MpReqType.send; peer = 1; status = MpState.prepared; id = 5 });
}

post_all-Between_example :
    Ensures
      (λ batch t. Between ready batch.1 t)
      Unit
      (collect (post_prepared event_mode true) (7 ∷ 8 ∷ []) [] ready)
    × Ensures
        (λ batch t. Between ready batch.1 t)
        Unit
        (collect (isend_prepared event_mode) (7 ∷ 8 ∷ []) [] ready)
post_all-Between_example = post_all-Between event_mode (7 ∷ 8 ∷ []) ready

collect-Climbing_example :
    Ensures
      (λ batch t.
        Climbing ready batch.1 t
        × ((batch.0 ≢ 0) ⊎ All (λ p. Awaited event_mode (ready.reqs p) t) (7 ∷ 8 ∷ [])))
      Unit
      (collect (wait_id_checked event_mode) (7 ∷ 8 ∷ []) [] ready)
collect-Climbing_example = collect-Climbing event_mode (7 ∷ 8 ∷ []) ready

mp_send_post_all-Stranded_example :
    Ensures
      (λ _ t. Stranded plain 1 tx_flow ready t (7 ∷ 8 ∷ []))
      Unit
      (mp_send_post_all_on_stream plain (7 ∷ 8 ∷ []) 5 ready)
mp_send_post_all-Stranded_example =
    mp_send_post_all-Stranded plain 1 tx_flow (7 ∷ 8 ∷ []) 5 ready refl

abbrev window : MpWindow
window = record {
  base_ptr = λ _. 4096;
  rkey = λ _. 3;
  rsize = λ _. 64;
  reg = record { key = 5; mr = record { lkey = 5; rkey = 6 } };
}

mp_put_prepare-Given_example :
    Ensures
      (λ r t. Given plain (1 ∷ 2 ∷ 3 ∷ 4 ∷ []) r t)
      Unit
      (mp_put_prepare plain 1024 8 2 1 16 window 0 (pooled []))
mp_put_prepare-Given_example =
    mp_put_prepare-Given plain 1024 8 2 1 16 window 0 (pooled []) (1 ∷ 2 ∷ 3 ∷ 4 ∷ []) refl
      (omega arith) (pooled-FreeList [])

mp_send_prepare-Kept_example :
    Ensures
      (λ r t. Kept plain (1 ∷ 2 ∷ 3 ∷ 4 ∷ []) r t)
      Unit
      (mp_send_prepare plain 1024 8 1 2 (pooled []))
mp_send_prepare-Kept_example =
    mp_send_prepare-Kept plain 1024 8 1 2 (pooled []) (1 ∷ 2 ∷ 3 ∷ 4 ∷ []) refl (omega arith)
      (pooled-FreeList [])

-- The caller prepares the send of request 7 anew behind the calls that add it.
abbrev renewed : (Ptr → Request) → Ptr → Request
renewed h = update h 7 (record (h 7) { gds_send_info = 42 })

send_and_wait-Handed_example :
    Returns
      (λ r t. Handed plain 5 (7 ∷ 8 ∷ []) renewed (queued_wait 8 ∷ []) ready r t)
      (send_and_wait plain 5 (7 ∷ 8 ∷ []) renewed (some (queued_wait 8 ∷ [])) ready)
unfolding update
send_and_wait-Handed_example =
    send_and_wait-Handed plain 5 7 (8 ∷ []) renewed (queued_wait 8 ∷ []) ready (refl, (refl, tt))
      ((ground arith, refl, refl, refl), ((ground arith, refl, refl, refl), tt))
