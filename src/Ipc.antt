-- ===== src/Ipc.antt =====
-- The IPC path of src/mp.c: the handle cache of a client, and the shared-memory slot that
-- `mp_isend` fills.
pub mod Overlap
pub mod Slot
pub mod Receive
pub mod Blocked
use libmp.Base.{
  ℕ, ◌+◌, ◌-◌, ◌%◌, ◌^◌, Bool, true, false, not, ◌||◌, Option, none, some, List, [], ◌∷◌, ◌==◌, ltb,
  leb, if◌then◌else◌, update,
}
use libmp.Types.{Ptr, null, SmpBuffer, IpcHandleCacheEntry}
use libmp.Env.{Env}
use libmp.Machine.{
  Fault, M, pure, fail, ◌>>=◌, ◌>>◌, assert, call, load, modify, client_at, modify_client, index_of,
}

-- `uint64_t` addition
abbrev pub add64 : ℕ → ℕ → ℕ
add64 a b = (a + b) % 2 ^ 64

-- An `int` that holds a `size_t`, as a term of a `uint64_t` sum: the low 32 bits, sign extended.
abbrev pub int_as_u64 : ℕ → ℕ
int_as_u64 n = let low = n % 2 ^ 32 in if ltb low (2 ^ 31) then low else 2 ^ 64 - 2 ^ 32 + low

-- the test of `ipc_handle_cache_find`, on the base address that it compares
unfoldable pub overlaps : (handle_base handle_size addr size : ℕ) → Bool
overlaps handle_base handle_size addr size =
    not (leb (add64 handle_base (int_as_u64 handle_size)) addr || leb (add64 addr size) handle_base)

-- its loop; `local` says whether the peer is this process
unfoldable pub find_entry :
    (local : Bool) → (addr size : ℕ) → List IpcHandleCacheEntry → Option IpcHandleCacheEntry
find_entry local addr size [] = none
find_entry local addr size (e ∷ cache) =
    if overlaps (if local then e.base else e.remote_base) e.size addr size
    then some e
    else find_entry local addr size cache

-- The slot that `mp_isend` hands to the peer. `offset` is the bit pattern of an `int`.
abbrev pub fill_slot : (buf size : ℕ) → Ptr → IpcHandleCacheEntry → SmpBuffer
fill_slot buf size p e = record {
  busy = true;
  free = false;
  sreq = p;
  handle = e.handle;
  base_addr = e.base;
  base_size = e.size;
  addr = buf;
  size = size;
  offset = (buf + 2 ^ 64 - e.base) % 2 ^ 32;
}

module _ {W : Type 0} (env : Env W) where
  open env use {config}

  unfoldable pub ipc_handle_cache_find : (addr size peer : ℕ) → M W (Option IpcHandleCacheEntry)
  ipc_handle_cache_find addr size peer = do
    cidx ← index_of (config.client_index peer)
    c ← client_at cidx
    pure (find_entry (peer == config.mpi_comm_rank) addr size c.ipc_handle_cache)

  unfoldable pub ipc_handle_cache_insert : IpcHandleCacheEntry → (peer : ℕ) → M W (Unit {0})
  ipc_handle_cache_insert e peer = do
    cidx ← index_of (config.client_index peer)
    modify_client cidx (λ c. record c { ipc_handle_cache = e ∷ c.ipc_handle_cache })

  -- `CU_CHECK`: exits if the call fails
  abbrev pub cu_check : {A : Type 0} → Option A → M W A
  cu_check none = fail Fault.exited
  cu_check (some a) = pure a

  -- A new entry for the allocation that holds `buf`; `none` if `malloc` fails. The C leaves its
  -- `remote_base` unset, and reads it for other peers only.
  unfoldable pub new_entry : (buf : ℕ) → M W (Option IpcHandleCacheEntry)
  new_entry buf = do
    given ← call env.malloc
    if given
        then (do
          (base, size) ← cu_check (← call (env.cu_mem_get_address_range buf))
          handle ← cu_check (← call (env.cu_ipc_get_mem_handle base))
          let e : IpcHandleCacheEntry = record {
            base = base;
            size = size;
            remote_base = 0;
            handle = handle;
          }
          ipc_handle_cache_insert e config.mpi_comm_rank
          pure (some e))
        else pure none

  unfoldable pub put_slot : (client buf size : ℕ) → Ptr → IpcHandleCacheEntry → M W (Unit {0})
  put_slot client buf size p e = do
    c ← client_at client
    assert ((c.smp.remote_buffer c.smp.remote_head).free)
    modify_client client (λ d. record d {
      smp = record d.smp {
        remote_buffer = update d.smp.remote_buffer d.smp.remote_head (fill_slot buf size p e);
        remote_head = (d.smp.remote_head + 1) % config.smp_depth;
      };
    })

  unfoldable pub track_ipc_stream_rreq : (peer : ℕ) → Ptr → M W (Unit {0})
  track_ipc_stream_rreq peer p = do
    cidx ← index_of (config.client_index peer)
    c ← client_at cidx
    if c.posted_ipc_rreq == null
        then (do
          assert (c.last_posted_ipc_rreq == null)
          modify_client cidx (λ d. record d { posted_ipc_rreq = p; last_posted_ipc_rreq = p }))
        else (do
          modify c.last_posted_ipc_rreq (λ r. record r { next = p })
          modify p (λ r. record r { prev = c.last_posted_ipc_rreq })
          r ← load p
          assert (r.next == null)
          modify_client cidx (λ d. record d { last_posted_ipc_rreq = p }))
