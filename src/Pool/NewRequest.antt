-- ===== src/Pool/NewRequest.antt =====
-- `new_stream_request` of src/mp.c: the fields that it sets, and its frame.
use libmp.Base.{
  ℕ, ◌+◌, ◌≤◌, ◌<◌, ◌≡◌, refl, ◌≢◌, ◌∙◌, ap, subst, false, none, List, arith, ◌==◌, ltb, ◌∉◌,
  update, update_self, update_ne, Bool-cases, ◌⊎◌, inl, inr,
}
use libmp.Types.{Ptr, null, Request, Client, MpReqType, MpState, uint_max}
use libmp.Env.{Env}
use libmp.Machine.{State}
use libmp.Machine.Outcome.{Ensures, done, faults, Ensures-bind, Ensures-and}
use libmp.Machine.Heap.{Chain-update}
use libmp.Pool.{mp_get_request_id, new_stream_request}
use libmp.Pool.FreeList.{FreeList, Taken, refilled, PoolFails}
use libmp.Pool.Kept.{payload, get_request-Keeps}
use libmp.Pool.Take.{get_request-FreeList}

-- the client with one more id given out
abbrev pub next_id : Client → Client
next_id c = record c { last_req_id = c.last_req_id + 1 }

-- The request `r` that `new_stream_request` makes for client `c` of the memory `q`: it sets some
-- fields and keeps the others.
abbrev pub IsNew : Client → MpReqType → MpState → (q r : Request) → Type 0
IsNew c type state q r = record {
  peer : r.peer ≡ c.mpi_rank;
  type : r.type ≡ type;
  status : r.status ≡ state;
  id : r.id ≡ c.last_req_id + 1;
  in_range : r.id ≤ uint_max;
  flags : r.flags ≡ 0;
  sgv : r.sgv ≡ none;
  trigger : r.trigger ≡ false;
  next : r.next ≡ null;
  prev : r.prev ≡ null;
  kept : payload r ≡ payload q;
}

module _ {W : Type 0} (env : Env W) where
  open env use {config}

  -- On a pool that is as it should be, new_stream_request takes the first free request of the pool,
  -- refilled if it was empty, and sets its peer to the client's rank, its type and status as asked,
  -- its id to the client's last one plus 1, which is at most UINT_MAX, its flags and trigger to 0,
  -- and its scatter list and both links to NULL. It leaves the request's stream, its work requests
  -- and its information for GDSync as they were in that memory. The id counter goes up by one; no
  -- other field of a client and no request in use changes. It can fault only if the pool is empty and malloc
  -- fails, or if the ids are used up.
  pub new_stream_request-IsNew :
      (client : ℕ) (type : MpReqType) (state : MpState) (s : State W) (frees : List Ptr)
      → 0 < config.mp_request_limit
      → FreeList frees s
      → Ensures
          (λ p t.
            (rest : List Ptr) × Taken (refilled config.mp_request_limit s.brk frees) p rest t
            × IsNew (s.clients client) type state (s.reqs p) (t.reqs p)
            × (t.clients ≡ update s.clients client (next_id (s.clients client)))
            × ((a : Ptr) → a < s.brk → a ∉ frees → a ≢ p → t.reqs a ≡ s.reqs a))
          (PoolFails env frees s ⊎ (uint_max ≤ (s.clients client).last_req_id))
          (new_stream_request env client type state s)
  unfolding new_stream_request mp_get_request_id
  new_stream_request-IsNew client type state s frees lim fl =
      Ensures-bind (Ensures-and (get_request-FreeList env s frees lim fl) (get_request-Keeps env s))
        inl
        λ p t ((rest, taken, same, linked), keeps).
          let e : (p == null) ≡ false = ground (arith, taken.ne_null) in
          rw e (elim (Bool-cases (ltb (t.clients client).last_req_id uint_max)) [
            | inl more ↦
                rw (more, e)
                  (done (
                    rest,
                    record {
                      order = taken.order;
                      free = record {
                        chain =
                            Chain-update p _ (Chain-update p _ taken.free.chain taken.out)
                              taken.out;
                        allocated = taken.free.allocated;
                        positive = taken.free.positive;
                      };
                      ne_null = taken.ne_null;
                      allocated = taken.allocated;
                      out = taken.out;
                    },
                    simp update_self (record {
                      peer = ap (λ f. (f client).mpi_rank) same.clients;
                      type = refl;
                      status = refl;
                      id = ap (λ f. (f client).last_req_id + 1) same.clients;
                      in_range = ground arith;
                      flags = refl;
                      sgv = refl;
                      trigger = refl;
                      next = refl;
                      prev = refl;
                      kept = keeps p;
                    }),
                    ap (λ f. update f client (next_id (f client))) same.clients,
                    λ a lt out other.
                        update_ne _ p a _ other ∙ update_ne _ p a _ other ∙ same.reqs a lt out,
                  ))
            | inr full ↦ rw full (
                faults (
                  inr (subst (λ f. uint_max ≤ (f client).last_req_id) same.clients (ground arith))))
          ])
