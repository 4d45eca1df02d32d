-- ===== src/Ipc/Receive.antt =====
-- The receiver's side of the IPC path of src/mp.c: `progress_ipc` and
-- `track_processed_ipc_stream_rreq`.
use libmp.Base.{ℕ, not, Option, none, some, ◌==◌, if◌then◌else◌}
use libmp.Types.{
  Code, mp_failure, Ptr, null, is_pending, is_pending_nowait, SmpBuffer, IpcHandleCacheEntry,
}
use libmp.Env.{Env}
use libmp.Machine.{
  M, pure, ◌>>=◌, ◌>>◌, assert, call, load, modify, client_at, modify_client, index_of, for_clients,
}
use libmp.Ipc.{int_as_u64, ipc_handle_cache_find, ipc_handle_cache_insert, cu_check}

module _ {W : Type 0} (env : Env W) where
  open env use {config}

  unfoldable pub track_processed_ipc_stream_rreq : (peer : ℕ) → Ptr → M W (Unit {0})
  track_processed_ipc_stream_rreq peer p = do
    cidx ← index_of (config.client_index peer)
    c ← client_at cidx
    if c.processed_ipc_rreq == null
        then (do
          assert (c.last_processed_ipc_rreq == null)
          modify_client cidx
              (λ d. record d { processed_ipc_rreq = p; last_processed_ipc_rreq = p }))
        else (do
          modify c.last_processed_ipc_rreq (λ r. record r { next = p })
          modify p (λ r. record r { prev = c.last_processed_ipc_rreq })
          r ← load p
          assert (r.next == null)
          modify_client cidx (λ d. record d { last_processed_ipc_rreq = p }))

  -- The entry for the sender's allocation, opened and inserted if it is not in the cache. The C leaves
  -- the handle of a new entry unset.
  unfoldable pub open_entry : (peer : ℕ) → SmpBuffer → Option IpcHandleCacheEntry → M W Code
  open_entry peer slot (some e) = assert (slot.handle == e.handle) >> pure 0
  open_entry peer slot none = do
    given ← call env.malloc
    if given
        then (do
          base ← cu_check env (← call (env.cu_ipc_open_mem_handle slot.handle))
          ipc_handle_cache_insert env
              (record {
                base = base;
                size = slot.base_size;
                remote_base = slot.base_addr;
                handle = 0;
              })
              peer
          pure 0)
        else pure mp_failure

  -- What follows the assertion on the request, for the first posted receive `p`. The size of the
  -- slot goes through an `int`.
  unfoldable pub process_rreq : (peer cidx : ℕ) → SmpBuffer → Ptr → M W Code
  process_rreq peer cidx slot p = do
    r ← load p
    modify_client cidx (λ d. record d { posted_ipc_rreq = r.next })
    modify p (λ q. record q { next = null })
    e ← ipc_handle_cache_find env slot.addr (int_as_u64 slot.size) peer
    ret ← open_entry peer slot e
    if ret == 0 then track_processed_ipc_stream_rreq peer p >> pure 0 else pure ret

  -- The body of the loop. The loop's index is used as a rank.
  unfoldable pub progress_ipc_client : (peer : ℕ) → M W Code
  progress_ipc_client peer = do
    cidx ← index_of (config.client_index peer)
    c ← client_at cidx
    let slot = c.smp.local_buffer c.smp.local_tail_process
    if slot.busy
        then (do
          assert (not slot.free)
          let p = c.posted_ipc_rreq
          if p == null then pure 0 else do
            r ← load p
            if is_pending r.status
                then (do assert (p == null); process_rreq peer cidx slot p)
                else assert (is_pending_nowait r.status) >> pure 0)
        else pure 0

  unfoldable pub progress_ipc : M W Code
  progress_ipc = for_clients config.client_count 0 progress_ipc_client
