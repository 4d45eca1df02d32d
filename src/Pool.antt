-- ===== src/Pool.antt =====
-- The pool of requests of src/mp.c: `allocate_requests`, `get_request`, `mp_get_request_id`,
-- `new_stream_request` and `release_mp_request`.
pub mod Region
pub mod FreeList
pub mod Refill
pub mod Take
pub mod Kept
pub mod Listed
pub mod Release
pub mod NewRequest
use libmp.Base.{
  ℕ, zero, suc, ◌+◌, ◌-◌, Bool, true, false, not, none, List, [], ◌∷◌, ◌==◌, ltb, if◌then◌else◌,
  update,
}
use libmp.Types.{Ptr, null, Request, MpReqType, MpState, uint_max}
use libmp.Env.{Env}
use libmp.Machine.{
  Fault, ok, fault, M, pure, ◌>>=◌, ◌>>◌, assert, exit_unless, gets, call, load, modify, client_at,
  modify_client,
}

-- the loop that links a new region, on its requests from `p` on, of which `n` are not the last
unfoldable pub link_requests : ℕ → Ptr → (Ptr → Request) → Ptr → Request
link_requests zero p h = update h p (record (h p) { next = null })
link_requests (suc n) p h = link_requests n (p + 1) (update h p (record (h p) { next = p + 1 }))

-- The list takes the first region only: behind a list that is not empty the new node is linked to
-- the list, and the list's head stays.
abbrev pub add_region : Ptr → List Ptr → List Ptr
add_region p [] = p ∷ []
add_region p regions = regions

-- `mem_region->region = malloc(...)` and what follows. A region that `malloc` refuses is not
-- noticed, and the loop writes through `NULL`.
abbrev pub set_region : {W : Type 0} → (limit : ℕ) → Bool → M W (Unit {0})
set_region limit false s = fault Fault.bad_access
set_region limit true s = ok tt (record s {
  reqs = link_requests (limit - 1) s.brk s.reqs;
  brk = s.brk + limit;
  free_list = s.brk;
  mem_regions = add_region s.brk s.mem_regions;
})

-- the head of the free list, unlinked
unfoldable pub pop_free : {W : Type 0} → M W Ptr
pop_free = do
  p ← gets (λ s. s.free_list)
  r ← load p
  (λ s. ok tt (record s { free_list = r.next }))
  modify p (λ q. record q { next = null; prev = null })
  pure p

module _ {W : Type 0} (env : Env W) where
  unfoldable pub allocate_requests : M W (Unit {0})
  allocate_requests = do
    assert ((← gets (λ s. s.free_list)) == null)
    exit_unless (← call env.malloc)
    set_region env.config.mp_request_limit (← call env.malloc)

  -- what `get_request` does first
  unfoldable pub refill : M W (Unit {0})
  refill s =
      if s.free_list == null
      then (do allocate_requests; assert (not ((← gets (λ t. t.free_list)) == null))) s
      else ok tt s

  unfoldable pub get_request : M W Ptr
  get_request = refill >> pop_free

  unfoldable pub mp_get_request_id : (client : ℕ) → M W ℕ
  mp_get_request_id client = do
    c ← client_at client
    assert (ltb c.last_req_id uint_max)
    modify_client client (λ d. record d { last_req_id = d.last_req_id + 1 })
    pure (c.last_req_id + 1)

  -- The argument `stream` of the C is not used by it, and is left out.
  unfoldable pub new_stream_request : (client : ℕ) → MpReqType → MpState → M W Ptr
  new_stream_request client type state = do
    p ← get_request
    c ← client_at client
    modify p (λ r. record r {
      peer = c.mpi_rank;
      flags = 0;
      sgv = none;
      next = null;
      prev = null;
      trigger = false;
      type = type;
      status = state;
    })
    id ← mp_get_request_id client
    modify p (λ r. record r { id = id })
    pure p

module _ {W : Type 0} where
  unfoldable pub release_mp_request : Ptr → M W (Unit {0})
  release_mp_request p = do
    head ← gets (λ s. s.free_list)
    modify p (λ r. record r {
      next = head;
      prev = null;
      type = MpReqType.none_type;
      status = MpState.undef;
    })
    (λ s. ok tt (record s { free_list = p }))
