-- ===== src/Init/Connect.antt =====
-- The queue pairs of `mp_init` in src/mp.c: the loops over the peers that create them, exchange their
-- numbers and take them to the states in which they receive and send.
use libmp.Base.{
  ℕ, ◌+◌, Bool, true, false, Option, none, some, List, [], ◌∷◌, ◌++◌, ◌==◌, ltb, if◌then◌else◌,
  update,
}
use libmp.Types.{null, Client, Flows, SmpBuffer}
use libmp.Machine.{Fault, ok, fault, M, pure, ◌>>=◌, ◌>>◌, exit_unless, call, modify_client}
use libmp.Init.Settings.{Settings, is_on}
use libmp.Init.Verbs.{
  QpInfo, QpInitAttr, CreateFlags, QpAttr, init_ud, init_rc, rtr_ud, rtr_rc, rts_ud, rts_rc,
  PortAttr, Host,
}

-- `client_index`, `qpinfo_all`, and the attributes that the queue pairs accepted, in order
pub record Setup : Type 0 where
  pub client_index : ℕ → Option ℕ
  pub qpinfo_all : ℕ → QpInfo
  pub moves : List (ℕ × QpAttr)

-- goes on if there is a value; `none` stands for `MP_FAILURE`
abbrev pub or_failure : {W A B : Type 0} → Option A → (A → M W (Option B)) → M W (Option B)
or_failure none k = pure none
or_failure (some a) k = k a

-- goes on if the test holds
abbrev pub unless_failure : {W B : Type 0} → Bool → M W (Option B) → M W (Option B)
unless_failure b m = if b then m else pure none

abbrev pub ib_port : ℕ
ib_port = 1

abbrev zeros : Flows ℕ
zeros = record { tx = 0; rx = 0 }

abbrev pub zero_buffer : SmpBuffer
zero_buffer = record {
  busy = false;
  free = false;
  sreq = null;
  handle = 0;
  base_addr = 0;
  base_size = 0;
  addr = 0;
  size = 0;
  offset = 0;
}

-- a client of the array that `memset` cleared, with its rank
abbrev pub cleared : (rank : ℕ) → Client
cleared rank = record {
  mpi_rank = rank;
  last_req_id = 0;
  last_done_id = 0;
  last_posted_trigger_id = zeros;
  last_posted_tracked_id = zeros;
  last_trigger_id = zeros;
  last_tracked_id = zeros;
  last_posted_stream_req = zeros;
  posted_stream_req = zeros;
  last_waited_stream_req = zeros;
  waited_stream_req = zeros;
  ah = 0;
  qpn = 0;
  is_local = false;
  local_rank = 0;
  can_use_ipc = false;
  smp = record {
    local_buffer = λ _. zero_buffer;
    remote_buffer = λ _. zero_buffer;
    local_tail_process = 0;
    remote_head = 0;
  };
  ipc_handle_cache = [];
  last_posted_ipc_rreq = null;
  posted_ipc_rreq = null;
  last_processed_ipc_rreq = null;
  processed_ipc_rreq = null;
}

abbrev pub qp_init_attr : Settings → QpInitAttr
qp_init_attr settings = record {
  max_send_wr = 512;
  max_recv_wr = 512;
  max_send_sge = settings.ib_max_sge;
  max_recv_sge = settings.ib_max_sge;
  max_inline_data = 64;
  is_ud = is_on settings.mp_enable_ud;
}

abbrev pub create_flags : Settings → CreateFlags
create_flags settings = record {
  wq_on_gpu = is_on settings.use_wq_gpu;
  rx_cq_on_gpu = is_on settings.use_rx_cq_gpu;
  tx_cq_on_gpu = is_on settings.use_tx_cq_gpu;
  wq_dbrec_on_gpu = is_on settings.use_dbrec_gpu;
}

abbrev pub init_attr : (ud : Bool) → QpAttr
init_attr ud = if ud then init_ud 0 ib_port 0 else init_rc 0 ib_port true true true

abbrev pub rtr_attr : (ud : Bool) → PortAttr → QpInfo → QpAttr
rtr_attr ud port info =
    if ud
    then rtr_ud
    else rtr_rc (record {
      path_mtu = port.active_mtu;
      dest_qp_num = info.qpn;
      rq_psn = info.psn;
      dlid = info.lid;
      max_dest_rd_atomic = 1;
      min_rnr_timer = 12;
      port_num = ib_port;
    })

abbrev pub rts_attr : (ud : Bool) → QpAttr
rts_attr ud =
    if ud
    then rts_ud 0
    else rts_rc
        (record { sq_psn = 0; timeout = 20; retry_cnt = 7; rnr_retry = 7; max_rd_atomic = 1 })

abbrev pub info_of : PortAttr → (qpn : ℕ) → QpInfo
info_of port qpn = record { lid = port.lid; psn = 0; qpn = qpn }

module _ {W : Type 0} (host : Host W) where
  -- an access to an array with one element for each rank
  abbrev pub in_range : (rank : ℕ) → M W (Unit {0})
  in_range rank s = if ltb rank host.mpi_comm_size then ok tt s else fault Fault.bad_access

  module _ (settings : Settings) (gpu_id : ℕ) (port : PortAttr) where
    abbrev pub ud : Bool
    ud = is_on settings.mp_enable_ud

    -- the first loop, from client `i` on
    unfoldable pub create_qps : (peers : List ℕ) → (i : ℕ) → Setup → M W (Option Setup)
    create_qps [] i g = pure (some g)
    create_qps (peer ∷ peers) i g = do
      in_range peer
      modify_client i (λ _. cleared peer)
      number ← call (host.gds_create_qp i (qp_init_attr settings) gpu_id (create_flags settings))
      or_failure number (λ qpn. do
        ret ← call (host.ibv_modify_qp i (init_attr ud))
        exit_unless (ret == 0)
        create_qps peers (i + 1) (record g {
          client_index = update g.client_index peer (some i);
          qpinfo_all = update g.qpinfo_all peer (info_of port qpn);
          moves = g.moves ++ (i, init_attr ud) ∷ [];
        }))

    -- the second loop
    unfoldable pub ready_to_receive : (peers : List ℕ) → (i : ℕ) → Setup → M W (Option Setup)
    ready_to_receive [] i g = pure (some g)
    ready_to_receive (peer ∷ peers) i g = do
      in_range peer
      let attr : QpAttr = rtr_attr ud port (g.qpinfo_all peer)
      ret ← call (host.ibv_modify_qp i attr)
      unless_failure (ret == 0)
          (ready_to_receive peers (i + 1) (record g { moves = g.moves ++ (i, attr) ∷ [] }))

    -- the address handle of a datagram peer
    unfoldable pub set_target : (i : ℕ) → QpInfo → M W (Option (Unit {0}))
    set_target i info =
        if ud
        then (do
          handle ← call (host.ibv_create_ah info.lid ib_port)
          or_failure handle
              (λ ah. modify_client i (λ c. record c { ah = ah; qpn = info.qpn }) >> pure (some tt)))
        else pure (some tt)

    -- the third loop
    unfoldable pub ready_to_send : (peers : List ℕ) → (i : ℕ) → Setup → M W (Option Setup)
    ready_to_send [] i g = pure (some g)
    ready_to_send (peer ∷ peers) i g = do
      in_range peer
      ret ← call (host.ibv_modify_qp i (rts_attr ud))
      unless_failure (ret == 0) (do
        target ← set_target i (g.qpinfo_all peer)
        or_failure target (λ _.
            ready_to_send peers (i + 1) (record g { moves = g.moves ++ (i, rts_attr ud) ∷ [] })))
