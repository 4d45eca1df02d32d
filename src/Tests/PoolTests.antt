-- ===== src/Tests/PoolTests.antt =====
-- The theorems on the pool of requests at concrete states.
use libmp.Base.{All, ◌≡◌, refl, ◌≢◌, ◌<◌, ◌≤◌, ◌∉◌, List, [], ◌∷◌, arith, update, ◌⊎◌}
use libmp.Types.{Ptr, MpReqType, MpState, none_type, undef, uint_max}
use libmp.Machine.{State, ◌>>=◌}
use libmp.Machine.Outcome.{Returns, Ensures}
use libmp.Pool.{allocate_requests, get_request, release_mp_request, new_stream_request}
use libmp.Pool.Region.{addresses}
use libmp.Pool.FreeList.{FreeList, SameOthers, Taken, MallocFails, PoolFails}
use libmp.Pool.Refill.{allocate_requests-FreeList}
use libmp.Pool.Listed.{Beyond, get_request-Beyond}
use libmp.Machine.Heap.{nil}
use libmp.Pool.Take.{get_request-FreeList}
use libmp.Pool.Release.{release_mp_request-FreeList, get_request-release}
use libmp.Pool.NewRequest.{IsNew, next_id, new_stream_request-IsNew}
use libmp.Tests.Setup.{Script, plain, start, pooled, pooled-FreeList}

allocate_requests-FreeList_example :
    Ensures
      (λ _ t. FreeList (addresses 4 1) t × SameOthers [] (start []) t)
      (MallocFails plain (start []))
      (allocate_requests plain (start []))
allocate_requests-FreeList_example =
    allocate_requests-FreeList plain (start []) (omega arith) (omega arith) refl

-- the pool of `pooled` with all of its requests taken
abbrev drained : State Script
drained = record (pooled []) { free_list = 0 }

get_request-Beyond_example :
    Ensures
      (λ p t. (rest : List Ptr) × FreeList rest t × All (λ a. Beyond 4 t.mem_regions a) (p ∷ rest))
      (PoolFails plain [] drained)
      (get_request plain drained)
get_request-Beyond_example =
    get_request-Beyond plain 1 [] drained refl (omega arith, tt) (omega arith)
      (record { chain = nil; allocated = tt; positive = omega arith })

get_request-FreeList_example :
    Ensures
      (λ p t.
        (rest : List Ptr) × Taken (1 ∷ 2 ∷ 3 ∷ 4 ∷ []) p rest t
        × SameOthers (1 ∷ 2 ∷ 3 ∷ 4 ∷ []) (pooled []) t
        × ((t.reqs p).next ≡ 0))
      (PoolFails plain (1 ∷ 2 ∷ 3 ∷ 4 ∷ []) (pooled []))
      (get_request plain (pooled []))
get_request-FreeList_example =
    get_request-FreeList plain (pooled []) (1 ∷ 2 ∷ 3 ∷ 4 ∷ []) (omega arith) (pooled-FreeList [])

-- request 7 is in use
abbrev used : State Script
used = record (pooled []) { brk = 9 }

release_mp_request-FreeList_example :
    Returns
      (λ _ t.
        FreeList (7 ∷ 1 ∷ 2 ∷ 3 ∷ 4 ∷ []) t
        × ((t.reqs 7).type ≡ none_type)
        × ((t.reqs 7).status ≡ undef)
        × ((a : Ptr) → a ≢ 7 → t.reqs a ≡ used.reqs a)
        × (t.clients ≡ used.clients)
        × (t.brk ≡ used.brk))
      (release_mp_request 7 used)
release_mp_request-FreeList_example =
    release_mp_request-FreeList used 7 (1 ∷ 2 ∷ 3 ∷ 4 ∷ [])
      (record {
        chain = (pooled-FreeList []).chain;
        allocated = omega arith;
        positive = omega arith;
      })
      (omega arith) (omega arith) refl

get_request-release_example :
    Returns
      (λ _ t.
        FreeList (1 ∷ 2 ∷ 3 ∷ 4 ∷ []) t
        × (t.free_list ≡ 1)
        × ((a : Ptr) → a < 5 → a ∉ 1 ∷ 2 ∷ 3 ∷ 4 ∷ [] → t.reqs a ≡ (pooled []).reqs a))
      ((get_request plain >>= release_mp_request) (pooled []))
get_request-release_example =
    get_request-release plain (pooled []) (omega arith) (pooled-FreeList [])

new_stream_request-IsNew_example :
    Ensures
      (λ p t.
        (rest : List Ptr) × Taken (1 ∷ 2 ∷ 3 ∷ 4 ∷ []) p rest t
        × IsNew
            ((pooled []).clients 1)
            MpReqType.send
            MpState.prepared
            ((pooled []).reqs p)
            (t.reqs p)
        × (t.clients ≡ update (pooled []).clients 1 (next_id ((pooled []).clients 1)))
        × ((a : Ptr) → a < 5 → a ∉ 1 ∷ 2 ∷ 3 ∷ 4 ∷ [] → a ≢ p → t.reqs a ≡ (pooled []).reqs a))
      (PoolFails plain (1 ∷ 2 ∷ 3 ∷ 4 ∷ []) (pooled [])
        ⊎ (uint_max ≤ ((pooled []).clients 1).last_req_id))
      (new_stream_request plain 1 MpReqType.send MpState.prepared (pooled []))
new_stream_request-IsNew_example =
    new_stream_request-IsNew plain 1 MpReqType.send MpState.prepared (pooled [])
      (1 ∷ 2 ∷ 3 ∷ 4 ∷ []) (omega arith) (pooled-FreeList [])
