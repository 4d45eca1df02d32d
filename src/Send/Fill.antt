-- ===== src/Send/Fill.antt =====
-- How src/mp.c and src/mp_peersync.c fill in the work request of a request, and the call that
-- prepares the wait for its completion.
use libmp.Base.{
  ◌+◌, ◌%◌, ◌^◌, ℕ, Bool, true, false, Option, none, some, List, [], ◌∷◌, ◌==◌, if◌then◌else◌,
  has_flag,
}
use libmp.Types.{
  IbvMr, Code, mp_put_inline, mp_put_nowait, Ptr, Sge, SendFlags, Opcode, wr_send, Target, ud,
  rdma_at, Request, Client, MpFlow,
}
use libmp.Env.{Env}
use libmp.Machine.{M, pure, ◌>>=◌, ◌>>◌, assert, call, modify}

-- a code, and what is stored in `*req_t`
abbrev pub Posted : Type 0
Posted = Code × Option Ptr

-- `struct iovec`
pub record Iovec : Type 0 where
  pub iov_base : ℕ
  pub iov_len : ℕ

-- `struct mp_reg`
pub record MpReg : Type 0 where
  pub key : ℕ
  pub mr : IbvMr

-- `struct mp_window`, by client index
pub record MpWindow : Type 0 where
  pub base_ptr : ℕ → ℕ
  pub rkey : ℕ → ℕ
  pub rsize : ℕ → ℕ
  pub reg : MpReg

abbrev pub signaled_only : SendFlags
signaled_only = record { signaled = true; inline_data = false }

-- `MP_PUT_NOWAIT` and `MP_PUT_INLINE` as flags of the work request
abbrev pub put_flags : ℕ → SendFlags
put_flags flags = record {
  signaled = if has_flag flags mp_put_nowait then false else true;
  inline_data = has_flag flags mp_put_inline;
}

abbrev pub sge : (addr len key : ℕ) → Sge
sge addr len key = record { length = len; lkey = key; addr = addr }

-- the entries of `req->sgv`
abbrev pub sgv_of : (key : ℕ) → List Iovec → List Sge
sgv_of key [] = []
sgv_of key (v ∷ vs) = sge v.iov_base v.iov_len key ∷ sgv_of key vs

-- Without UD the union `wr` keeps what it held.
abbrev pub ud_target : (enable_ud : Bool) → Client → Target → Target
ud_target enable_ud c old = if enable_ud then ud c.ah c.qpn 0 else old

-- a send of `entries`
abbrev pub fill_send : (enable_ud : Bool) → Client → Ptr → List Sge → Request → Request
fill_send enable_ud c p entries r = record r {
  sr = record {
    exp_send_flags = signaled_only;
    exp_opcode = wr_send;
    wr_id = p;
    sg_list = entries;
    target = ud_target enable_ud c r.sr.target;
  };
}

-- A receive; with UD there is room for the global routing header in front.
abbrev pub fill_recv : (enable_ud : Bool) → (ud_padding : Sge) → Ptr → Sge → Request → Request
fill_recv enable_ud ud_padding p entry r = record r {
  rr = record { wr_id = p; sg_list = if enable_ud then ud_padding ∷ entry ∷ [] else entry ∷ [] };
}

-- a one-sided transfer to or from `displ` in the window of client `i`
abbrev pub fill_rdma :
    SendFlags → Opcode → (client displ : ℕ) → MpWindow → Ptr → Sge → Request → Request
fill_rdma send_flags opcode i displ window p entry r = record r {
  sr = record {
    exp_send_flags = send_flags;
    exp_opcode = opcode;
    wr_id = p;
    sg_list = entry ∷ [];
    target = rdma_at ((window.base_ptr i + displ) % 2 ^ 64) (window.rkey i);
  };
}

module _ {W : Type 0} (env : Env W) where
  -- `gds_prepare_wait_cq(cq, &req->gds_wait_info, 0)`
  unfoldable pub prepare_wait_cq : (client : ℕ) → MpFlow → Ptr → M W Code
  prepare_wait_cq client flow p = do
    (ret, info) ← call (env.gds_prepare_wait_cq client flow)
    modify p (λ r. record r { gds_wait_info = info })
    pure ret

  -- `req->sgv = malloc(...)`, its assertion and the loop that fills it
  unfoldable pub attach_sgv : Ptr → List Sge → M W (Unit {0})
  attach_sgv p entries = do
    assert (← call env.malloc)
    modify p (λ r. record r { sgv = some entries })

-- `*req_t = req` on success
abbrev pub posted_if : Code → Ptr → Posted
posted_if ret p = (ret, if ret == 0 then some p else none)
