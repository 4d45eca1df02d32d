-- ===== src/Comm/Switches.antt =====
-- The settings of src/comm_library/comm.cpp that come from the environment.
use libmp.Base.{ℕ, ◌%◌, Bool, false, not, Option, none, some, ◌==◌, if◌then◌else◌}
use libmp.Machine.{M, Fault, pure, fail}
use libmp.Init.Settings.{Text, atoi}

-- the variables that `getenv` is asked for
pub data CommVar : Type 0 where
  comm_enable_debug comm_use_comm_var comm_use_async_ki comm_use_async_sa comm_use_gpu_id : CommVar

-- the `static` variables of the four switches; -1 is `none`
pub record Switches : Type 0 where
  pub dbg_is_enabled : Option Bool
  pub use_comm : Option Bool
  pub use_gpu_comm : Option Bool
  pub use_async : Option Bool

-- A switch that was read once keeps its value; one that is not set is off.
abbrev pub read_switch : (kept : Option Bool) → Option Text → Bool
read_switch (some b) text = b
read_switch none none = false
read_switch none (some text) = not (atoi text == 0)

module _ (getenv : CommVar → Option Text) where
  abbrev pub dbg_enabled : Switches → Bool × Switches
  dbg_enabled s =
      let b : Bool = read_switch s.dbg_is_enabled (getenv CommVar.comm_enable_debug) in
      (b, record s { dbg_is_enabled = some b })

  abbrev pub comm_use_comm : Switches → Bool × Switches
  comm_use_comm s =
      let b : Bool = read_switch s.use_comm (getenv CommVar.comm_use_comm_var) in
      (b, record s { use_comm = some b })

  abbrev pub comm_use_model_ki : Switches → Bool × Switches
  comm_use_model_ki s =
      let b : Bool = read_switch s.use_gpu_comm (getenv CommVar.comm_use_async_ki) in
      (b, record s { use_gpu_comm = some b })

  abbrev pub comm_use_model_sa : Switches → Bool × Switches
  comm_use_model_sa s =
      let b : Bool = read_switch s.use_async (getenv CommVar.comm_use_async_sa) in
      (b, record s { use_async = some b })

  -- The GPU of a rank, of the devices that CUDA counts; a division by 0 without a device.
  abbrev pub comm_select_device : {W : Type 0} → (num_devices mpi_rank : ℕ) → M W ℕ
  comm_select_device num_devices mpi_rank = elim (getenv CommVar.comm_use_gpu_id) [
    | some text ↦ pure (atoi text)
    | none ↦ if num_devices == 0 then fail Fault.bad_access else pure (mpi_rank % num_devices)
  ]
