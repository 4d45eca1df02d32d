-- ===== src/Tests/Setup.antt =====
-- An outside world in which every call succeeds and the completions follow a script, and states of
-- a process with it.
use libmp.Base.{arith, ℕ, Bool, true, false, none, some, List, [], ◌∷◌}
use libmp.Types.{
  null, Request, Client, MpReqType, MpState, SendWr, Opcode, Target, Flows, SmpBuffer, Polled,
  entries,
}
use libmp.Env.{Env, Config}
use libmp.Machine.{State}
use libmp.Machine.Heap.{nil}
use libmp.Pool.{link_requests}
use libmp.Pool.Region.{link_requests-Chain}
use libmp.Pool.FreeList.{FreeList}

abbrev pub Script : Type 0
Script = List Polled

abbrev pub next_poll : Script → Polled × Script
next_poll [] = (entries [], [])
next_poll (x ∷ xs) = (x, xs)

abbrev pub config_of : (event_sync ud ipc : Bool) → Config
config_of event_sync ud ipc = record {
  use_event_sync = event_sync;
  mp_enable_ud = ud;
  mp_enable_ipc = ipc;
  cq_poll_count = 20;
  ib_max_sge = 30;
  client_count = 2;
  mp_request_limit = 4;
  smp_depth = 256;
  mpi_comm_rank = 0;
  client_index = λ peer. some peer;
}

abbrev pub env_of : Config → Env Script
env_of c = record {
  config = c;
  malloc = λ w. (true, w);
  get_cycles = λ w. (some 0, w);
  cuda_get_last_error = λ w. (false, w);
  cu_mem_get_address_range = λ addr w. (some (addr, 4096), w);
  cu_ipc_get_mem_handle = λ base w. (some base, w);
  cu_ipc_open_mem_handle = λ handle w. (some handle, w);
  cu_pointer_is_device = λ addr w. (false, w);
  cu_pointer_set_sync_memops = λ base w. (true, w);
  ibv_reg_mr = λ addr length remote w. (some (record { lkey = 5; rkey = 6 }), w);
  ibv_dereg_mr = λ mr w. (0, w);
  mpi_allgather = λ mine w. (λ rank. mine, w);
  gds_post_send = λ qp wr w. (0, w);
  gds_post_recv = λ qp wr w. (0, w);
  gds_prepare_send = λ qp wr w. ((0, 7), w);
  gds_prepare_wait_cq = λ i flow w. ((0, 9), w);
  gds_post_wait_cq = λ i flow info w. (0, w);
  ibv_poll_cq = λ i flow count w. next_poll w;
  gds_stream_queue_send = λ stream qp wr w. (0, w);
  gds_stream_wait_cq = λ stream i flow w. (0, w);
  gds_stream_post_send = λ stream info w. (0, w);
  gds_stream_post_send_all = λ stream infos w. (0, w);
  gds_stream_post_wait_cq = λ stream info w. (0, w);
  gds_stream_post_wait_cq_all = λ stream infos w. (0, w);
  gds_prepare_write_value32 = λ word value w. (0, w);
  gds_prepare_wait_value32 = λ word value cond w. (0, w);
  gds_stream_post_descriptors = λ stream descs w. (0, w);
}

abbrev pub plain : Env Script
plain = env_of (config_of false false false)

abbrev pub event_mode : Env Script
event_mode = env_of (config_of true false false)

abbrev pub blank_sr : SendWr
blank_sr = record {
  exp_send_flags = record { signaled = false; inline_data = false };
  exp_opcode = Opcode.wr_send;
  wr_id = null;
  sg_list = [];
  target = Target.unset;
}

abbrev pub blank : Request
blank = record {
  type = MpReqType.none_type;
  peer = 0;
  status = MpState.undef;
  trigger = false;
  id = 0;
  flags = 0;
  stream = 0;
  sr = blank_sr;
  rr = record { wr_id = null; sg_list = [] };
  sgv = none;
  gds_send_info = 0;
  gds_wait_info = 0;
  next = null;
  prev = null;
}

abbrev pub blank_buffer : SmpBuffer
blank_buffer = record {
  busy = false;
  free = true;
  sreq = null;
  handle = 0;
  base_addr = 0;
  base_size = 0;
  addr = 0;
  size = 0;
  offset = 0;
}

abbrev pub both {ℓ} : {A : Type ℓ} → A → Flows A
both a = record { tx = a; rx = a }

-- a client as `mp_init` leaves it
abbrev pub new_client : (rank : ℕ) → Client
new_client rank = record {
  mpi_rank = rank;
  last_req_id = 0;
  last_done_id = 0;
  last_posted_trigger_id = both 0;
  last_posted_tracked_id = both 0;
  last_trigger_id = both 0;
  last_tracked_id = both 0;
  last_posted_stream_req = both null;
  posted_stream_req = both null;
  last_waited_stream_req = both null;
  waited_stream_req = both null;
  ah = 0;
  qpn = 0;
  is_local = false;
  local_rank = 0;
  can_use_ipc = false;
  smp = record {
    local_buffer = λ _. blank_buffer;
    remote_buffer = λ _. blank_buffer;
    local_tail_process = 0;
    remote_head = 0;
  };
  ipc_handle_cache = [];
  last_posted_ipc_rreq = null;
  posted_ipc_rreq = null;
  last_processed_ipc_rreq = null;
  processed_ipc_rreq = null;
}

-- before the first region of requests
abbrev pub start : Script → State Script
start script = record {
  world = script;
  reqs = λ _. blank;
  brk = 1;
  free_list = null;
  mem_regions = [];
  clients = new_client;
}

-- the same with the four requests of a first region free
abbrev pub pooled : Script → State Script
pooled script = record (start script) {
  reqs = link_requests 3 1 (λ _. blank);
  brk = 5;
  free_list = 1;
  mem_regions = 1 ∷ [];
}

pub start-FreeList : (script : Script) → FreeList [] (start script)
start-FreeList script = record { chain = nil; allocated = tt; positive = omega arith }

pub pooled-FreeList : (script : Script) → FreeList (1 ∷ 2 ∷ 3 ∷ 4 ∷ []) (pooled script)
pooled-FreeList script = record {
  chain = link_requests-Chain 3 1 (λ _. blank) (omega arith);
  allocated = omega arith;
  positive = omega arith;
}
