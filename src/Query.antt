-- ===== src/Query.antt =====
-- The small functions of the interface: `mp_query_param`, `mp_dbg_enabled`, `mp_enable_dbg` and
-- `mp_warn_enabled` of src/mp.c, the version of include/mp.h, and `mp_irecv_on_stream` of
-- src/mp_peersync.c.
use libmp.Base.{ℕ, ◌+◌, ◌*◌, ◌-◌, ◌^◌, Bool, true, false, not, Option, none, some, ◌==◌}
use libmp.Types.{Code, Ptr, einval}
use libmp.Init.Settings.{Text, atoi}

abbrev pub mp_api_major_version : ℕ
mp_api_major_version = 2

abbrev pub mp_api_minor_version : ℕ
mp_api_minor_version = 0

-- `mp_param_t`
pub data MpParam : Type 0 where
  mp_param_version mp_num_params : MpParam

-- The code, and what is stored in `*value`; the pointer may be `NULL`.
unfoldable pub mp_query_param : MpParam → (value_is_null : Bool) → Code × Option ℕ
mp_query_param param true = (einval, none)
mp_query_param MpParam.mp_param_version false =
    (0, some (mp_api_major_version * 2 ^ 16 + mp_api_minor_version))
mp_query_param MpParam.mp_num_params false = (einval, none)

-- `mp_irecv_on_stream`; its code is behind `#if 1`
abbrev pub mp_irecv_on_stream : (buf size peer key stream : ℕ) → Code × Option Ptr
mp_irecv_on_stream buf size peer key stream = (2 ^ 32 - einval, none)

-- `mp_dbg_is_enabled` and `mp_warn_is_enabled`; -1 is `none`
pub record Messages : Type 0 where
  pub mp_dbg_is_enabled : Option Bool
  pub mp_warn_is_enabled : Option Bool

-- a switch that was read once keeps its value
abbrev pub read_once : (kept : Option Bool) → (default : Bool) → Option Text → Bool
read_once (some b) default text = b
read_once none default none = default
read_once none default (some text) = not (atoi text == 0)

-- with the value of `MP_ENABLE_DEBUG`
abbrev pub mp_dbg_enabled : Option Text → Messages → Bool × Messages
mp_dbg_enabled text m =
    let b : Bool = read_once m.mp_dbg_is_enabled false text in
    (b, record m { mp_dbg_is_enabled = some b })

abbrev pub mp_enable_dbg : (enabled : ℕ) → Messages → Messages
mp_enable_dbg enabled m = record m { mp_dbg_is_enabled = some (not (enabled == 0)) }

-- with the value of `MP_ENABLE_WARN`
abbrev pub mp_warn_enabled : Option Text → Messages → Bool × Messages
mp_warn_enabled text m =
    let b : Bool = read_once m.mp_warn_is_enabled true text in
    (b, record m { mp_warn_is_enabled = some b })
