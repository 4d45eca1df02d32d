-- ===== src/Pool/FreeList.antt =====
-- What the pool keeps: the free list runs through distinct allocated requests.
use libmp.Base.{ℕ, ◌≤◌, ◌<◌, ◌≡◌, ◌≢◌, false, List, [], ◌∷◌, All, ◌∉◌, ◌⊎◌}
use libmp.Types.{Ptr, null}
use libmp.Env.{Env}
use libmp.Machine.{State}
use libmp.Machine.Heap.{Chain}
use libmp.Pool.Region.{addresses}

-- The free list is `frees`, and every request on it is allocated.
abbrev pub FreeList : {W : Type 0} → List Ptr → State W → Type 0
FreeList frees s = record {
  chain : Chain s.reqs s.free_list frees;
  allocated : All (λ a. a < s.brk) frees;
  positive : 0 < s.brk;
}

-- `t` has the requests of `s` that are allocated and not free, and its clients.
abbrev pub SameOthers : {W : Type 0} → List Ptr → State W → State W → Type 0
SameOthers frees s t = record {
  reqs : (a : Ptr) → a < s.brk → a ∉ frees → t.reqs a ≡ s.reqs a;
  clients : t.clients ≡ s.clients;
  grows : s.brk ≤ t.brk;
}

-- the free addresses after `get_request` made sure that there are some
abbrev pub refilled : (limit : ℕ) → Ptr → List Ptr → List Ptr
refilled limit brk [] = addresses limit brk
refilled limit brk frees = frees

-- one of the two calls of `malloc` in `allocate_requests` fails
abbrev pub MallocFails : {W : Type 0} → Env W → State W → Type 0
MallocFails env s =
    ((env.malloc s.world).0 ≡ false) ⊎ ((env.malloc (env.malloc s.world).1).0 ≡ false)

-- why `get_request` may fault: the pool is empty and memory is exhausted
abbrev pub PoolFails : {W : Type 0} → Env W → List Ptr → State W → Type 0
PoolFails env frees s = (frees ≡ []) × MallocFails env s

-- `p` is taken off the free addresses, and `rest` is what is left of them.
abbrev pub Taken : {W : Type 0} → List Ptr → Ptr → List Ptr → State W → Type 0
Taken frees p rest t = record {
  order : frees ≡ p ∷ rest;
  free : FreeList rest t;
  ne_null : p ≢ null;
  allocated : p < t.brk;
  out : p ∉ rest;
}
