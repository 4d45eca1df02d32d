-- ===== src/Types/Requests.antt =====
-- `struct mp_request` of src/mp_internal.h, and the tests on it.
use libmp.Base.{ℕ, Bool, ◌&&◌, ◌||◌, not, Option, List, has_flag}
use libmp.Types.Enums.{MpState, MpReqType, mp_put_nowait, is_state, is_type, is_tx, is_rx}
use libmp.Types.Wire.{Ptr, Sge, SendWr, RecvWr}

-- The union `in` is two fields, `sr` and `rr`: no path reads one after it wrote the other. The
-- entries `sg_entry` and `ud_sg_entry` are in the `sg_list` of the work request. `gds_send_info`
-- and `gds_wait_info` are opaque.
pub record Request : Type 0 where
  pub type : MpReqType
  pub peer : ℕ
  pub status : MpState
  pub trigger : Bool
  pub id : ℕ
  pub flags : ℕ
  pub stream : ℕ
  pub sr : SendWr
  pub rr : RecvWr
  pub sgv : Option (List Sge)
  pub gds_send_info : ℕ
  pub gds_wait_info : ℕ
  pub next : Ptr
  pub prev : Ptr

-- `req_valid`
abbrev pub req_valid : Request → Bool
req_valid r = is_type r.type && is_state r.status

-- what `req_can_be_waited` returns, behind its assertions
abbrev pub waitable : Request → Bool
waitable r = is_rx r.type || (is_tx r.type && not (has_flag r.flags mp_put_nowait))
