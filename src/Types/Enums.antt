-- ===== src/Types/Enums.antt =====
-- Constants and enumerations of include/mp.h and src/mp_internal.h, and the tests on a request's
-- type. Return codes are natural numbers: 0, `MP_FAILURE` or an errno.
use libmp.Base.{arith, refl, ◌≡◌, ℕ, ◌-◌, ◌^◌, Bool, true, false, if◌then◌else◌}

abbrev pub Code : Type 0
Code = ℕ

abbrev pub mp_success : Code
mp_success = 0

abbrev pub mp_failure : Code
mp_failure = 1

abbrev pub enomem : Code
enomem = 12

abbrev pub einval : Code
einval = 22

-- `UINT_MAX`
abbrev pub uint_max : ℕ
uint_max = 2 ^ 32 - 1

-- `MP_MAX_PROGRESS_FLOW_TRY`
abbrev pub mp_max_progress_flow_try : ℕ
mp_max_progress_flow_try = 100

-- `MP_PROGRESS_ERROR_CHECK_TMOUT_US`
abbrev pub mp_progress_error_check_tmout_us : ℕ
mp_progress_error_check_tmout_us = 60_000_000

-- `UD_ADDITION`
abbrev pub ud_addition : ℕ
ud_addition = 40

-- `enum mp_put_flags`
abbrev pub mp_put_inline : ℕ
mp_put_inline = 1

abbrev pub mp_put_nowait : ℕ
mp_put_nowait = 2

-- `mp_state_t`; `n_states` is the enumerator that counts the others
pub data MpState : Type 0 where
  undef prepared pending_nowait pending complete n_states : MpState

-- `mp_req_type_t`
pub data MpReqType : Type 0 where
  none_type send recv rdma n_types : MpReqType

-- `mp_flow_t`, less the count `N_FLOWS`
pub data MpFlow : Type 0 where
  tx_flow rx_flow : MpFlow

-- An array indexed by flow.
pub record Flows {ℓ} (A : Type ℓ) : Type ℓ where
  pub tx : A
  pub rx : A

module _ {ℓ} {A : Type ℓ} where
  abbrev pub at_flow : Flows A → MpFlow → A
  at_flow f tx_flow = f.tx
  at_flow f rx_flow = f.rx

  abbrev pub set_flow : Flows A → MpFlow → A → Flows A
  set_flow f tx_flow a = record f { tx = a }
  set_flow f rx_flow a = record f { rx = a }

abbrev pub is_prepared : MpState → Bool
is_prepared prepared = true
is_prepared _ = false

abbrev pub is_pending_nowait : MpState → Bool
is_pending_nowait pending_nowait = true
is_pending_nowait _ = false

abbrev pub is_pending : MpState → Bool
is_pending pending = true
is_pending _ = false

abbrev pub is_complete : MpState → Bool
is_complete complete = true
is_complete _ = false

-- `status < MP_N_STATES`
abbrev pub is_state : MpState → Bool
is_state n_states = false
is_state _ = true

-- `type > MP_NULL && type < MP_N_TYPES`, which `req_type_tx` and `req_type_rx` assert
abbrev pub is_live_type : MpReqType → Bool
is_live_type none_type = false
is_live_type n_types = false
is_live_type _ = true

-- `type < MP_N_TYPES`
abbrev pub is_type : MpReqType → Bool
is_type n_types = false
is_type _ = true

-- the test of `req_type_tx`, behind its assertion
abbrev pub is_tx : MpReqType → Bool
is_tx send = true
is_tx rdma = true
is_tx _ = false

-- the test of `req_type_rx`, behind its assertion
abbrev pub is_rx : MpReqType → Bool
is_rx recv = true
is_rx _ = false

-- the flow that `mp_type_to_flow` gives, behind the assertion of `req_type_tx`
abbrev pub flow_of : MpReqType → MpFlow
flow_of t = if is_tx t then tx_flow else rx_flow

-- The types of the transmit flow are live, and not of the receive flow.
pub is_tx-types :
    (type : MpReqType)
    → is_tx type ≡ true
    → (is_live_type type ≡ true) × (is_type type ≡ true) × (is_rx type ≡ false)
is_tx-types send e = (refl, refl, refl)
is_tx-types rdma e = (refl, refl, refl)
is_tx-types recv e = absurd (ground arith)
is_tx-types none_type e = absurd (ground arith)
is_tx-types n_types e = absurd (ground arith)
