-- ===== src/Types/Wire.antt =====
-- What crosses to the verbs and GDSync libraries: scatter entries, work requests (`struct
-- ibv_sge`, `gds_send_wr`, `struct ibv_recv_wr`), completions and descriptors, with the fields that
-- src/mp.c and src/mp_peersync.c write or read. Those types belong to other packages.
use libmp.Base.{ℕ, Bool, List}
use libmp.Types.Enums.{MpFlow}

abbrev pub Ptr : Type 0
Ptr = ℕ

abbrev pub null : Ptr
null = 0

-- `struct ibv_sge`
pub record Sge : Type 0 where
  pub length : ℕ
  pub lkey : ℕ
  pub addr : ℕ

-- `exp_opcode`
pub data Opcode : Type 0 where
  wr_send rdma_write rdma_read : Opcode

-- `exp_send_flags`
pub record SendFlags : Type 0 where
  pub signaled : Bool
  pub inline_data : Bool

-- the union `wr` of a send request
pub data Target : Type 0 where
  unset : Target
  ud : (ah remote_qpn remote_qkey : ℕ) → Target
  rdma_at : (remote_addr rkey : ℕ) → Target

-- `gds_send_wr`; `sg_list` holds the entries that the pointer of the C leads to
pub record SendWr : Type 0 where
  pub exp_send_flags : SendFlags
  pub exp_opcode : Opcode
  pub wr_id : Ptr
  pub sg_list : List Sge
  pub target : Target

-- `struct ibv_recv_wr`
pub record RecvWr : Type 0 where
  pub wr_id : Ptr
  pub sg_list : List Sge

-- `struct ibv_wc`
pub record Wc : Type 0 where
  pub success : Bool
  pub wr_id : Ptr

-- what `ibv_poll_cq` returns: a negative count, or entries
pub data Polled : Type 0 where
  poll_error : Polled
  entries : List Wc → Polled

-- the condition of a wait on a 32-bit word
pub data WaitCond : Type 0 where
  cond_geq cond_eq cond_and cond_nor : WaitCond

-- A 32-bit word that the stream writes or polls: a client's trigger or tracked id, or the user's.
pub data Word32 : Type 0 where
  trigger_id tracked_id : (client : ℕ) → MpFlow → Word32
  user_word : (ptr : ℕ) → Word32

-- `gds_descriptor_t`
pub data Desc : Type 0 where
  write_value32 : Word32 → (value : ℕ) → Desc
  wait_value32 : Word32 → (value : ℕ) → WaitCond → Desc
  send_desc : (send_info : ℕ) → Desc
  wait_desc : (wait_info : ℕ) → Desc

-- `struct ibv_mr`, the keys of a registration
pub record IbvMr : Type 0 where
  pub lkey : ℕ
  pub rkey : ℕ

-- `exchange_win_info` of `mp_window_create`; `size` is the bit pattern of an `int`
pub record ExchangeWinInfo : Type 0 where
  pub base_addr : ℕ
  pub rkey : ℕ
  pub size : ℕ
