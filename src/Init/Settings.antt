-- ===== src/Init/Settings.antt =====
-- The settings that `mp_init` of src/mp.c reads from its flags and the environment. An `int` is its
-- bit pattern, below 2^32; a text is the list of its bytes.
use libmp.Base.{
  ℕ, ◌+◌, ◌-◌, ◌*◌, ◌%◌, ◌^◌, Bool, not, ◌&&◌, ◌||◌, Option, none, some, List, [], ◌∷◌, ◌==◌, ltb,
  leb, if◌then◌else◌, has_flag,
}

abbrev pub Text : Type 0
Text = List ℕ

-- the variables that `mp_init` asks for; `named` is a name that it takes from a value
pub data EnvVar : Type 0 where
  mp_use_ib_hca use_ib_hca mp_enable_ud mp_cq_poll_count mp_ib_cq_depth mp_ib_max_sgl : EnvVar
  mp_enable_ipc mp_event_async mp_rx_cq_on_gpu mp_tx_cq_on_gpu mp_dbrec_on_gpu : EnvVar
  named : Text → EnvVar

-- the globals of src/mp.c that it sets from them
pub record Settings : Type 0 where
  pub req_dev : Option Text
  pub mp_enable_ud : ℕ
  pub cq_poll_count : ℕ
  pub num_cqes : ℕ
  pub ib_max_sge : ℕ
  pub mp_enable_ipc : ℕ
  pub use_event_sync : ℕ
  pub use_wq_gpu : ℕ
  pub use_rx_cq_gpu : ℕ
  pub use_tx_cq_gpu : ℕ
  pub use_dbrec_gpu : ℕ

abbrev is_digit : ℕ → Bool
is_digit c = leb b'0' c && leb c b'9'

abbrev is_space : ℕ → Bool
is_space c = (c == b' ') || (leb 9 c && leb c 13)

-- the digits at the front of a text, behind the number read so far
unfoldable pub digits : (n : ℕ) → Text → ℕ
digits n [] = n
digits n (c ∷ s) = let rest = digits (n * 10 + (c - b'0')) s in if is_digit c then rest else n

-- `atoi`: white space, a sign, digits
unfoldable pub signed : Text → ℕ
signed [] = 0
signed (c ∷ s) =
    if c == b'-'
    then (2 ^ 32 - digits 0 s % 2 ^ 32) % 2 ^ 32
    else if c == b'+'
    then digits 0 s % 2 ^ 32
    else digits 0 (c ∷ s) % 2 ^ 32

unfoldable pub atoi : Text → ℕ
atoi [] = 0
atoi (c ∷ s) = let rest = atoi s in if is_space c then rest else signed (c ∷ s)

-- the value of the variable if it is set, and what the setting was else
abbrev pub set_int : Option Text → ℕ → ℕ
set_int none n = n
set_int (some value) n = atoi value

-- the switch that a flag turns on, and a variable sets
abbrev pub flag_or : (flag : Bool) → Option Text → ℕ
flag_or flag value = set_int value (if flag then 1 else 0)

-- `USE_IB_HCA` is the old name: its value is taken for the name of a variable.
abbrev pub device_name : (getenv : EnvVar → Option Text) → Option Text
device_name getenv = elim (getenv mp_use_ib_hca) [
  | some value ↦ some value
  | none ↦ elim (getenv use_ib_hca) [ none ↦ none | some value ↦ getenv (named value) ]
]

-- The flags are numbered 1, 2, 3 and 4, and tested by `&`: with 2, with 3 and with 4.
unfoldable pub read_settings : (getenv : EnvVar → Option Text) → (init_flags : ℕ) → Settings
read_settings getenv init_flags = record {
  req_dev = device_name getenv;
  mp_enable_ud = set_int (getenv EnvVar.mp_enable_ud) 0;
  cq_poll_count = set_int (getenv mp_cq_poll_count) 20;
  num_cqes = set_int (getenv mp_ib_cq_depth) 256;
  ib_max_sge = set_int (getenv mp_ib_max_sgl) 30;
  mp_enable_ipc = set_int (getenv EnvVar.mp_enable_ipc) 0;
  use_event_sync = set_int (getenv mp_event_async) 0;
  use_wq_gpu = 0;
  use_rx_cq_gpu = flag_or (has_flag init_flags 2) (getenv mp_rx_cq_on_gpu);
  use_tx_cq_gpu = flag_or (not (init_flags % 4 == 0)) (getenv mp_tx_cq_on_gpu);
  use_dbrec_gpu = flag_or (has_flag init_flags 4) (getenv mp_dbrec_on_gpu);
}

-- a signed comparison of two `int`s
abbrev pub less_int : ℕ → ℕ → Bool
less_int a b = ltb ((a + 2 ^ 31) % 2 ^ 32) ((b + 2 ^ 31) % 2 ^ 32)

-- an `int` as a condition
abbrev pub is_on : ℕ → Bool
is_on n = not (n == 0)
