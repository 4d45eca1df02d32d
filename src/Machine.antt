-- ===== src/Machine.antt =====
-- The process state of libmp and commands over it: requests at addresses, clients by index, the
-- free list, and the outside world. A command ends in a result, in a fault (a failed assertion,
-- `exit`, an access through a bad pointer or index, a loop that nothing ends), or with its fuel
-- spent.
pub mod Outcome
pub mod Heap
pub mod Commands
use libmp.Base.{
  ℕ, zero, suc, Bool, true, false, not, ◌&&◌, Option, none, some, List, ◌+◌, ◌==◌, if◌then◌else◌,
  update,
}
use libmp.Types.{
  Code, Ptr, null, Request, Client, MpReqType, MpFlow, is_live_type, flow_of, req_valid, waitable,
}

pub record State (W : Type 0) : Type 0 where
  pub world : W
  pub reqs : Ptr → Request
  -- the first address that no request region has used
  pub brk : Ptr
  -- `mp_request_free_list`
  pub free_list : Ptr
  -- `mem_region_list`, by the first address of each region
  pub mem_regions : List Ptr
  pub clients : ℕ → Client

-- `hangs`: the code spins and does not return
pub data Fault : Type 0 where
  assertion exited bad_access hangs : Fault

pub data Out (W A : Type 0) : Type 0 where
  ok : A → State W → Out W A
  fault : Fault → Out W A
  out_of_fuel : Out W A

abbrev pub M : Type 0 → Type 0 → Type 0
M W A = State W → Out W A

abbrev pub pure : {W A : Type 0} → A → M W A
pure = ok

abbrev pub fail : {W A : Type 0} → Fault → M W A
fail f _ = fault f

module _ {W A B : Type 0} where
  abbrev pub and_then : Out W A → (A → M W B) → Out W B
  and_then (ok a s) k = k a s
  and_then (fault f) k = fault f
  and_then out_of_fuel k = out_of_fuel

  infixl 5 ◌>>=◌ ◌>>◌
  abbrev pub ◌>>=◌ : M W A → (A → M W B) → M W B
  m >>= k = λ s. and_then (m s) k

  abbrev pub ◌>>◌ : M W A → M W B → M W B
  m >> n = m >>= λ _. n

module _ {W : Type 0} where
  abbrev pub assert : Bool → M W (Unit {0})
  assert true s = ok tt s
  assert false s = fault Fault.assertion

  -- `exit(-1)` unless the test holds
  abbrev pub exit_unless : Bool → M W (Unit {0})
  exit_unless true s = ok tt s
  exit_unless false s = fault Fault.exited

  abbrev pub gets : {A : Type 0} → (State W → A) → M W A
  gets f s = ok (f s) s

  -- a call that leaves the process
  abbrev pub call : {A : Type 0} → (W → A × W) → M W A
  call f s = let (a, w) = f s.world in ok a (record s { world = w })

  abbrev pub set_req : Ptr → Request → State W → State W
  set_req p r s = record s { reqs = update s.reqs p r }

  abbrev pub set_client : ℕ → Client → State W → State W
  set_client i c s = record s { clients = update s.clients i c }

  -- `*p`; a fault at `NULL`
  abbrev pub load : Ptr → M W Request
  load p s = if p == null then fault Fault.bad_access else ok (s.reqs p) s

  abbrev pub store : Ptr → Request → M W (Unit {0})
  store p r s = if p == null then fault Fault.bad_access else ok tt (set_req p r s)

  -- a read and write of the fields of `*p`
  abbrev pub modify : Ptr → (Request → Request) → M W (Unit {0})
  modify p f s = if p == null then fault Fault.bad_access else ok tt (set_req p (f (s.reqs p)) s)

  abbrev pub client_at : ℕ → M W Client
  client_at i s = ok (s.clients i) s

  abbrev pub modify_client : ℕ → (Client → Client) → M W (Unit {0})
  modify_client i f s = ok tt (set_client i (f (s.clients i)) s)

  -- `client_index[peer]`; `clients[-1]` and an index out of range are bad accesses
  abbrev pub index_of : Option ℕ → M W ℕ
  index_of none = fail Fault.bad_access
  index_of (some i) = pure i

  -- `mp_type_to_flow`
  abbrev pub mp_type_to_flow : MpReqType → M W MpFlow
  mp_type_to_flow t = assert (is_live_type t) >> pure (flow_of t)

  -- `req_can_be_waited`
  abbrev pub req_can_be_waited : Request → M W Bool
  req_can_be_waited r = assert (req_valid r && is_live_type r.type) >> pure (waitable r)

  -- for (i = ...; n rounds; i++), left at the first code that is not 0
  unfoldable pub for_clients : ℕ → ℕ → (ℕ → M W Code) → M W Code
  for_clients zero i body = pure 0
  for_clients (suc n) i body = do
    ret ← body i
    if ret == 0 then for_clients n (i + 1) body else pure ret

  -- `mp_get_cycles`
  abbrev pub cycles : Option ℕ → M W ℕ
  cycles none = fail Fault.exited
  cycles (some t) = pure t
