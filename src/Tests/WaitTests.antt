-- ===== src/Tests/WaitTests.antt =====
-- The theorems on waits, progress and the handle cache at concrete states.
use libmp.Base.{ℕ, ◌≡◌, refl, ◌∉◌, [], ◌∷◌, arith, update, some, true, false}
use libmp.Types.{
  Ptr, Wc, MpReqType, MpState, tx_flow, mp_put_nowait, einval, IpcHandleCacheEntry, entries,
}
use libmp.Machine.{State}
use libmp.Machine.Outcome.{Returns, Ensures}
use libmp.Machine.Heap.{Chain-update}
use libmp.Pool.FreeList.{FreeList}
use libmp.Ipc.{find_entry, put_slot}
use libmp.Ipc.Slot.{channel, Filled, put_slot-Filled}
use libmp.Ipc.Receive.{progress_ipc}
use libmp.Ipc.Blocked.{progress_ipc-idle}
use libmp.Ipc.Overlap.{find_entry-first}
use libmp.Progress.{complete_entry, progress_flows, mp_progress_all}
use libmp.Progress.Complete.{Seen, Refused, complete_entry-Seen}
use libmp.Progress.Engine.{ProgressCode, Progressed, progress_flows-Progressed}
use libmp.Progress.Count.{Counts, mp_progress_all-Counts}
use libmp.Post.{mp_post_send, mp_post_recv}
use libmp.Post.Retry.{post-Progressed}
use libmp.Wait.{release_each, mp_wait_all}
use libmp.Wait.Release.{Released, release_each-Released}
use libmp.Wait.Ready.{mp_wait_all-Ready, mp_wait_all-einval}
use libmp.Tests.Setup.{new_client, blank_buffer, Script, plain, blank, pooled, pooled-FreeList}

abbrev entry : (base size : ℕ) → IpcHandleCacheEntry
entry base size = record { base = base; size = size; remote_base = 0; handle = 1 }

find_entry-first_example :
    find_entry true 4100 8 (entry 8192 64 ∷ entry 4096 64 ∷ []) ≡ some (entry 4096 64)
find_entry-first_example =
    find_entry-first true 4100 8 (entry 8192 64 ∷ entry 4096 64 ∷ []) (omega arith) (omega arith)

-- request 7 is a send in flight, and 8 is complete
abbrev busy : Script → State Script
busy script = record (pooled script) {
  brk = 9;
  reqs =
      update
        (update (pooled []).reqs 7
          (record blank { type = MpReqType.send; status = MpState.pending; id = 3 }))
        8 (record blank { type = MpReqType.send; status = MpState.complete });
}

abbrev seven : Wc
seven = record { success = true; wr_id = 7 }

complete_entry-Seen_example :
    Ensures
      (λ _ t. Seen plain 1 tx_flow seven (busy []) t)
      (Refused plain 1 tx_flow seven (busy []))
      (complete_entry plain 1 tx_flow seven (busy []))
complete_entry-Seen_example = complete_entry-Seen plain 1 tx_flow seven (busy [])

abbrev polled : State Script
polled = busy (entries (seven ∷ []) ∷ [])

progress_flows-Progressed_example :
    Ensures (λ ret t. ProgressCode ret × Progressed polled t) Unit (progress_flows plain polled)
progress_flows-Progressed_example =
    progress_flows-Progressed plain polled refl (ground arith) (omega arith)

mp_progress_all-Counts_example :
    Ensures
      (λ ret t. Counts (7 ∷ 8 ∷ []) 0 polled ret t)
      Unit
      (mp_progress_all plain (7 ∷ 8 ∷ []) polled)
mp_progress_all-Counts_example =
    mp_progress_all-Counts plain refl (7 ∷ 8 ∷ []) polled (ground arith) (omega arith)

put_slot-Filled_example :
    Ensures
      (λ _ t.
        Filled 256 4100 8 7 (entry 4096 64) (channel polled 1) (channel t 1)
        × (t.reqs ≡ polled.reqs))
      (((channel polled 1).remote_buffer (channel polled 1).remote_head).free ≡ false)
      (put_slot plain 1 4100 8 7 (entry 4096 64) polled)
put_slot-Filled_example =
    put_slot-Filled plain 1 4100 8 7 (entry 4096 64) polled (omega arith) (omega arith)

post-Progressed_example :
    Ensures (λ _ t. Progressed polled t) Unit (mp_post_send plain 1 7 polled)
    × Ensures (λ _ t. Progressed polled t) Unit (mp_post_recv plain 1 7 polled)
post-Progressed_example = post-Progressed plain refl polled (ground arith) (omega arith) 1 7

-- no request is free, and 7 and 8 are complete sends
abbrev pub finished : State Script
finished = record (pooled []) {
  brk = 9;
  reqs =
      update
        (update (pooled []).reqs 7
          (record blank { type = MpReqType.send; status = MpState.complete }))
        8 (record blank { type = MpReqType.rdma; status = MpState.complete });
}

pub finished-FreeList : FreeList (1 ∷ 2 ∷ 3 ∷ 4 ∷ []) finished
finished-FreeList = record {
  chain =
      Chain-update 8 _ (Chain-update 7 _ (pooled-FreeList []).chain (ground arith)) (ground arith);
  allocated = omega arith;
  positive = omega arith;
}

release_each-Released_example :
    Returns
      (λ code t. (code ≡ 0) × Released finished.reqs (7 ∷ 8 ∷ []) (1 ∷ 2 ∷ 3 ∷ 4 ∷ []) finished t)
      (release_each plain (7 ∷ 8 ∷ []) 0 finished)
unfolding update
release_each-Released_example =
    release_each-Released plain (7 ∷ 8 ∷ []) (1 ∷ 2 ∷ 3 ∷ 4 ∷ []) 0 finished finished-FreeList
      (ground arith)

mp_wait_all-Ready_example :
    Returns
      (λ code t.
        (code ≡ 0)
        × FreeList (8 ∷ 7 ∷ 1 ∷ 2 ∷ 3 ∷ 4 ∷ []) t
        × ((a : Ptr) → a ∉ 7 ∷ 8 ∷ [] → t.reqs a ≡ finished.reqs a)
        × (t.clients ≡ finished.clients))
      (mp_wait_all plain 1 (7 ∷ 8 ∷ []) finished)
unfolding update
mp_wait_all-Ready_example =
    mp_wait_all-Ready plain 0 0 (7 ∷ 8 ∷ []) (1 ∷ 2 ∷ 3 ∷ 4 ∷ []) finished refl finished-FreeList
      (ground arith) (((ground arith, refl, refl), refl), (((ground arith, refl, refl), refl), tt))

-- 8 is a put that cannot be waited for
abbrev unwaitable : State Script
unwaitable = record finished {
  reqs = update finished.reqs 8 (record blank {
    type = MpReqType.rdma;
    status = MpState.pending_nowait;
    flags = mp_put_nowait;
  });
}

mp_wait_all-einval_example :
    Returns
      (λ code t. (code ≡ einval) × (t ≡ record unwaitable { world = [] }))
      (mp_wait_all plain 1 (7 ∷ 8 ∷ []) unwaitable)
unfolding update
mp_wait_all-einval_example =
    mp_wait_all-einval plain 1 0 8 (7 ∷ []) [] unwaitable refl refl
      (((ground arith, refl, refl), refl), tt) (ground arith, refl, refl)

-- Client 1 has a message in its slot, and its first posted receive, 8, is waited for.
abbrev with_message : State Script
with_message = record finished {
  reqs = update finished.reqs 8 (record blank { type = MpReqType.recv; status = MpState.pending });
  clients = λ i. record (new_client i) {
    posted_ipc_rreq = 8;
    smp = record {
      local_buffer = λ _. record blank_buffer { busy = true; free = false };
      remote_buffer = λ _. blank_buffer;
      local_tail_process = 0;
      remote_head = 0;
    };
  };
}

progress_ipc-idle_example :
    Ensures (λ ret t. (ret ≡ 0) × (t ≡ with_message)) Unit (progress_ipc plain with_message)
progress_ipc-idle_example = progress_ipc-idle plain with_message
