-- ===== src/Tests/PostedTests.antt =====
-- The theorems on posted lists at concrete states.
use libmp.Base.{true, ◌≢◌, ◌⊎◌, All, refl, [], ◌∷◌, arith, update}
use libmp.Types.{Ptr, null, Request, MpReqType, MpState, tx_flow}
use libmp.Machine.{State}
use libmp.Machine.Outcome.{Returns}
use libmp.Machine.Heap.{nil, cons}
use libmp.Posted.{client_track_posted_stream_req, posted_loop}
use libmp.Posted.Queue.{Queue, SameButLinks, client_track_posted_stream_req-Queue}
use libmp.Posted.Prefix.{Posts, posted_loop-Posts}
use libmp.Stream.{post_prepared}
use libmp.Triggers.Pipeline.{Progressed, post_and_progress, post_and_progress-Progressed}
use libmp.Triggers.Ordered.{OrderedQueue, Joins, post_prepared-Joins}
use libmp.Triggers.Due.{DueOrKept, posted_loop-Due}
use libmp.Tests.Setup.{Script, event_mode, blank, both, new_client, pooled}

abbrev prepared_send : (id next prev : Ptr) → Request
prepared_send id next prev = record blank {
  type = MpReqType.send;
  peer = 1;
  status = MpState.prepared;
  id = id;
  next = next;
  prev = prev;
}

-- Client 1 has the prepared sends 7 and 8 on its posted list, with the ids 3 and 9, its stream
-- has reached the id 5; the prepared send 6 is on no list.
abbrev queued : State Script
queued = record (pooled []) {
  brk = 9;
  reqs =
      update
        (update (update (pooled []).reqs 7 (prepared_send 3 8 null)) 8 (prepared_send 9 null 7)) 6
        (prepared_send 11 null null);
  clients = λ i. record (new_client i) {
    posted_stream_req = record { tx = 7; rx = null };
    last_posted_stream_req = record { tx = 8; rx = null };
    last_posted_trigger_id = both 9;
    last_trigger_id = both 5;
  };
}

queued-Queue : Queue 1 tx_flow (7 ∷ 8 ∷ []) queued
unfolding update
queued-Queue = record {
  chain = cons (ground arith) refl refl (cons (ground arith) refl refl nil);
  links = (refl, (refl, tt));
  last = refl;
}

client_track_posted_stream_req-Queue_example :
    Returns
      (λ _ t. Queue 1 tx_flow (7 ∷ 8 ∷ 6 ∷ []) t × SameButLinks queued t)
      (client_track_posted_stream_req 1 6 tx_flow queued)
unfolding update
client_track_posted_stream_req-Queue_example =
    client_track_posted_stream_req-Queue 1 tx_flow 6 (7 ∷ 8 ∷ []) queued queued-Queue (ground arith)
      refl refl refl

posted_loop-Posts_example :
    Returns
      (λ code t. Posts 1 tx_flow 5 queued (7 ∷ 8 ∷ []) code t)
      (posted_loop event_mode 9 1 tx_flow queued)
unfolding update
posted_loop-Posts_example =
    posted_loop-Posts event_mode 1 tx_flow (7 ∷ 8 ∷ []) queued (omega arith) queued-Queue
      (omega arith) ((refl, refl), ((refl, refl), tt))

queued-OrderedQueue : OrderedQueue 1 0 (7 ∷ 8 ∷ []) queued
unfolding update
queued-OrderedQueue = (queued-Queue, omega arith)

post_prepared-Joins_example :
    Returns
      (λ batch t. Joins event_mode 1 0 6 (7 ∷ 8 ∷ []) batch.0 t)
      (post_prepared event_mode true 6 [] queued)
unfolding update
post_prepared-Joins_example =
    post_prepared-Joins event_mode 1 0 true 6 (7 ∷ 8 ∷ []) [] queued queued-OrderedQueue refl refl
      (ground arith) refl refl refl

posted_loop-Due_example :
    Returns
      (λ code t. (code ≢ 0) ⊎ All (DueOrKept 5 queued t) (7 ∷ 8 ∷ []))
      (posted_loop event_mode 9 1 tx_flow queued)
unfolding update
posted_loop-Due_example =
    posted_loop-Due event_mode 1 0 (7 ∷ 8 ∷ []) queued (omega arith) queued-OrderedQueue
      (omega arith) ((refl, refl), ((refl, refl), tt))

post_and_progress-Progressed_example :
    Returns
      (λ r u. Progressed event_mode 1 5 1 (7 ∷ 8 ∷ []) (6 ∷ []) queued r u)
      (post_and_progress event_mode 1 5 1 (6 ∷ []) queued)
unfolding update
post_and_progress-Progressed_example =
    post_and_progress-Progressed event_mode 1 5 0 1 (7 ∷ 8 ∷ []) (6 ∷ []) queued (omega arith)
      (omega arith) queued-OrderedQueue (refl, tt) ((refl, refl, ground arith, refl, refl), tt)
      ((refl, refl), ((refl, refl), ((refl, refl), tt))) (omega arith)
