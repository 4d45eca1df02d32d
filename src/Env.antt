-- ===== src/Env.antt =====
-- What libmp calls and does not implement: the verbs and GDSync libraries, CUDA, the clock and the
-- allocator, as functions over an abstract outside world `W`; and the settings that `mp_init`
-- fixes. A queue pair and its completion queues are named by the client's index and the flow.
use libmp.Base.{ℕ, Bool, Option, List}
use libmp.Types.{
  IbvMr, ExchangeWinInfo, Code, MpFlow, SendWr, RecvWr, Polled, WaitCond, Word32, Desc,
}

-- the globals that `mp_init` sets once
pub record Config : Type 0 where
  pub use_event_sync : Bool
  pub mp_enable_ud : Bool
  pub mp_enable_ipc : Bool
  pub cq_poll_count : ℕ
  pub ib_max_sge : ℕ
  pub client_count : ℕ
  pub mp_request_limit : ℕ
  pub smp_depth : ℕ
  pub mpi_comm_rank : ℕ
  -- `client_index`; `none` for a rank with no client and for a rank out of range
  pub client_index : ℕ → Option ℕ

pub record Env (W : Type 0) : Type 0 where
  pub config : Config
  pub malloc : W → Bool × W
  -- microseconds; `none` if `clock_gettime` fails
  pub get_cycles : W → Option ℕ × W
  pub cuda_get_last_error : W → Bool × W
  pub cu_mem_get_address_range : (addr : ℕ) → W → Option (ℕ × ℕ) × W
  pub cu_ipc_get_mem_handle : (base : ℕ) → W → Option ℕ × W
  pub cu_ipc_open_mem_handle : (handle : ℕ) → W → Option ℕ × W
  -- whether `addr` is known to CUDA as device memory
  pub cu_pointer_is_device : (addr : ℕ) → W → Bool × W
  -- whether the attribute could be set
  pub cu_pointer_set_sync_memops : (base : ℕ) → W → Bool × W
  -- with or without remote access
  pub ibv_reg_mr : (addr length : ℕ) → (remote : Bool) → W → Option IbvMr × W
  pub ibv_dereg_mr : IbvMr → W → Code × W
  -- what each rank contributed, by rank
  pub mpi_allgather : ExchangeWinInfo → W → (ℕ → ExchangeWinInfo) × W
  pub gds_post_send : (qp : ℕ) → SendWr → W → Code × W
  pub gds_post_recv : (qp : ℕ) → RecvWr → W → Code × W
  pub gds_prepare_send : (qp : ℕ) → SendWr → W → (Code × ℕ) × W
  pub gds_prepare_wait_cq : (client : ℕ) → MpFlow → W → (Code × ℕ) × W
  pub gds_post_wait_cq : (client : ℕ) → MpFlow → (wait_info : ℕ) → W → Code × W
  pub ibv_poll_cq : (client : ℕ) → MpFlow → (count : ℕ) → W → Polled × W
  pub gds_stream_queue_send : (stream qp : ℕ) → SendWr → W → Code × W
  pub gds_stream_wait_cq : (stream client : ℕ) → MpFlow → W → Code × W
  pub gds_stream_post_send : (stream send_info : ℕ) → W → Code × W
  pub gds_stream_post_send_all : (stream : ℕ) → (send_infos : List ℕ) → W → Code × W
  pub gds_stream_post_wait_cq : (stream wait_info : ℕ) → W → Code × W
  pub gds_stream_post_wait_cq_all : (stream : ℕ) → (wait_infos : List ℕ) → W → Code × W
  pub gds_prepare_write_value32 : Word32 → (value : ℕ) → W → Code × W
  pub gds_prepare_wait_value32 : Word32 → (value : ℕ) → WaitCond → W → Code × W
  pub gds_stream_post_descriptors : (stream : ℕ) → List Desc → W → Code × W
