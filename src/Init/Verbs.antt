-- ===== src/Init/Verbs.antt =====
-- What `mp_init` and `mp_finalize` of src/mp.c call, and what they hand over: the attributes of queue
-- pairs, what ranks exchange, devices and shared memory.
use libmp.Base.{ℕ, Bool, Option, List}
use libmp.Types.{Code, SmpBuffer}
use libmp.Init.Settings.{EnvVar, Text}

-- `qpinfo_t`
pub record QpInfo : Type 0 where
  pub lid : ℕ
  pub psn : ℕ
  pub qpn : ℕ

-- `struct node_info`
pub record NodeInfo : Type 0 where
  pub hname : Text
  pub gpu_id : ℕ

-- `gds_qp_init_attr_t`
pub record QpInitAttr : Type 0 where
  pub max_send_wr : ℕ
  pub max_recv_wr : ℕ
  pub max_send_sge : ℕ
  pub max_recv_sge : ℕ
  pub max_inline_data : ℕ
  pub is_ud : Bool

-- `gds_flags`
pub record CreateFlags : Type 0 where
  pub wq_on_gpu : Bool
  pub rx_cq_on_gpu : Bool
  pub tx_cq_on_gpu : Bool
  pub wq_dbrec_on_gpu : Bool

-- a connected queue pair that becomes ready to receive
pub record RtrAttr : Type 0 where
  pub path_mtu : ℕ
  pub dest_qp_num : ℕ
  pub rq_psn : ℕ
  pub dlid : ℕ
  pub max_dest_rd_atomic : ℕ
  pub min_rnr_timer : ℕ
  pub port_num : ℕ

-- a connected queue pair that becomes ready to send
pub record RtsAttr : Type 0 where
  pub sq_psn : ℕ
  pub timeout : ℕ
  pub retry_cnt : ℕ
  pub rnr_retry : ℕ
  pub max_rd_atomic : ℕ

-- `struct ibv_qp_attr` with its mask, by the state and the type of the queue pair
pub data QpAttr : Type 0 where
  init_ud : (pkey_index port_num qkey : ℕ) → QpAttr
  init_rc : (pkey_index port_num : ℕ) → (remote_write remote_read local_write : Bool) → QpAttr
  rtr_ud : QpAttr
  rtr_rc : RtrAttr → QpAttr
  rts_ud : (sq_psn : ℕ) → QpAttr
  rts_rc : RtsAttr → QpAttr

-- `struct ibv_port_attr`
pub record PortAttr : Type 0 where
  pub lid : ℕ
  pub active_mtu : ℕ

pub record Host (W : Type 0) : Type 0 where
  pub getenv : EnvVar → Option Text
  pub mpi_comm_size : ℕ
  pub gds_query_version : W → Option ℕ × W
  pub gds_version_compatible : (version : ℕ) → Bool
  -- the names of the devices
  pub ibv_get_device_list : W → Option (List Text) × W
  pub ibv_open_device : (name : Text) → W → Bool × W
  -- `max_sge`
  pub ibv_query_device : W → Option ℕ × W
  pub ibv_alloc_pd : W → Bool × W
  pub ibv_query_port : W → PortAttr × W
  -- what the array of `qpinfo_t` holds before it is written
  pub qpinfo_memory : ℕ → QpInfo
  -- the number of the queue pair of a client
  pub gds_create_qp : (client : ℕ) → QpInitAttr → (gpu_id : ℕ) → CreateFlags → W → Option ℕ × W
  pub ibv_modify_qp : (client : ℕ) → QpAttr → W → Code × W
  -- what is for each rank, and what is from each rank
  pub mpi_alltoall : (ℕ → QpInfo) → W → Option (ℕ → QpInfo) × W
  pub mpi_barrier : W → Unit {0} × W
  pub ibv_create_ah : (dlid port_num : ℕ) → W → Option ℕ × W
  pub ud_padding : ℕ
  -- a code, and the name that is there then
  pub gethostname : W → (Code × Text) × W
  pub cuda_get_device : W → Option ℕ × W
  pub mpi_allgather_nodes : NodeInfo → W → Option (ℕ → NodeInfo) × W
  pub cuda_device_can_access_peer : (mine theirs : ℕ) → W → Option Bool × W
  pub sizeof_smp_buffer : ℕ
  pub shm_open : W → Bool × W
  pub shm_truncate : (size : ℕ) → W → Code × W
  -- `st_size`
  pub shm_stat : W → Option ℕ × W
  pub shm_map : (size : ℕ) → W → Bool × W
  -- the slots from that byte of the mapping on
  pub shm_slots : (offset : ℕ) → W → (ℕ → SmpBuffer) × W
  pub gds_destroy_qp : (client : ℕ) → W → Unit {0} × W
  pub ibv_dealloc_pd : W → Unit {0} × W
  pub ibv_close_device : W → Unit {0} × W
