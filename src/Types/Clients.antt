-- ===== src/Types/Clients.antt =====
-- `client_t` with the shared-memory channel and the handle cache of the IPC path.
use libmp.Base.{ℕ, Bool, List}
use libmp.Types.Enums.{Flows}
use libmp.Types.Wire.{Ptr}

-- `smp_buffer_t`
pub record SmpBuffer : Type 0 where
  pub busy : Bool
  pub free : Bool
  pub sreq : Ptr
  pub handle : ℕ
  pub base_addr : ℕ
  pub base_size : ℕ
  pub addr : ℕ
  pub size : ℕ
  pub offset : ℕ

-- `smp_channel_t`; a buffer is a map from its slots
pub record SmpChannel : Type 0 where
  pub local_buffer : ℕ → SmpBuffer
  pub remote_buffer : ℕ → SmpBuffer
  pub local_tail_process : ℕ
  pub remote_head : ℕ

-- `ipc_handle_cache_entry_t`; the cache of a client is the list of its entries
pub record IpcHandleCacheEntry : Type 0 where
  pub base : ℕ
  pub size : ℕ
  pub remote_base : ℕ
  pub handle : ℕ

-- `client_t`. The queue pair and its completion queues are named by the client's index.
pub record Client : Type 0 where
  pub mpi_rank : ℕ
  pub last_req_id : ℕ
  pub last_done_id : ℕ
  pub last_posted_trigger_id : Flows ℕ
  pub last_posted_tracked_id : Flows ℕ
  pub last_trigger_id : Flows ℕ
  pub last_tracked_id : Flows ℕ
  pub last_posted_stream_req : Flows Ptr
  pub posted_stream_req : Flows Ptr
  pub last_waited_stream_req : Flows Ptr
  pub waited_stream_req : Flows Ptr
  pub ah : ℕ
  pub qpn : ℕ
  pub is_local : Bool
  pub local_rank : ℕ
  pub can_use_ipc : Bool
  pub smp : SmpChannel
  pub ipc_handle_cache : List IpcHandleCacheEntry
  pub last_posted_ipc_rreq : Ptr
  pub posted_ipc_rreq : Ptr
  pub last_processed_ipc_rreq : Ptr
  pub processed_ipc_rreq : Ptr
