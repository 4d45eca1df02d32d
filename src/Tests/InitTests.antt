-- ===== src/Tests/InitTests.antt =====
-- The theorems on `mp_init` at a concrete host.
use libmp.Base.{
  ℕ, ◌^◌, ◌-◌, ◌*◌, ◌+◌, ◌≤◌, ◌≡◌, refl, ◌⊎◌, true, false, Option, none, some, [], ◌∷◌, arith,
}
use libmp.Machine.Outcome.{Ensures}
use libmp.Init.Settings.{EnvVar, Text, read_settings, atoi, signed, digits, is_on}
use libmp.Init.Verbs.{Host}
use libmp.Init.Start.{mp_init}
use libmp.Init.Shared.{slots_offset, shm_filesize}
use libmp.Init.Ready.{Ready}
use libmp.Init.Whole.{mp_init-ipc}
use libmp.Init.Slots.{Apart, slots_offset-Apart}
use libmp.Tests.Setup.{Script, plain, start, blank_buffer}

abbrev pub unset : EnvVar → Option Text
unset name = none

-- only `MP_ENABLE_IPC` is set, to 1
abbrev ipc_on : EnvVar → Option Text
ipc_on EnvVar.mp_enable_ipc = some (b'1' ∷ [])
ipc_on name = none

-- four ranks, of which each sees itself in all that is exchanged
abbrev pub host : (EnvVar → Option Text) → Host Script
host variables = record {
  getenv = variables;
  mpi_comm_size = 4;
  gds_query_version = λ w. (some 2, w);
  gds_version_compatible = λ version. true;
  ibv_get_device_list = λ w. (some ((b'm' ∷ []) ∷ []), w);
  ibv_open_device = λ name w. (true, w);
  ibv_query_device = λ w. (some 16, w);
  ibv_alloc_pd = λ w. (true, w);
  ibv_query_port = λ w. (record { lid = 3; active_mtu = 4 }, w);
  qpinfo_memory = λ rank. record { lid = 0; psn = 0; qpn = 0 };
  gds_create_qp = λ i attr gpu flags w. (some (i + 100), w);
  ibv_modify_qp = λ i attr w. (0, w);
  mpi_alltoall = λ infos w. (some infos, w);
  mpi_barrier = λ w. (tt, w);
  ibv_create_ah = λ lid port w. (some 1, w);
  ud_padding = 4096;
  gethostname = λ w. ((0, b'h' ∷ []), w);
  cuda_get_device = λ w. (some 0, w);
  mpi_allgather_nodes = λ mine w. (some (λ rank. mine), w);
  cuda_device_can_access_peer = λ mine theirs w. (some true, w);
  sizeof_smp_buffer = 136;
  shm_open = λ w. (true, w);
  shm_truncate = λ size w. (0, w);
  shm_stat = λ w. (some 0, w);
  shm_map = λ size w. (true, w);
  shm_slots = λ offset w. ((λ slot. blank_buffer), w);
  gds_destroy_qp = λ i w. (tt, w);
  ibv_dealloc_pd = λ w. (tt, w);
  ibv_close_device = λ w. (tt, w);
}

pub unset_ipc : is_on (read_settings unset 0).mp_enable_ipc ≡ false
unfolding read_settings
unset_ipc = refl

set_ipc : is_on (read_settings ipc_on 0).mp_enable_ipc ≡ true
unfolding read_settings atoi signed digits
set_ipc = refl

atoi_negative : atoi (b' ' ∷ b'-' ∷ b'1' ∷ b'x' ∷ []) ≡ 2 ^ 32 - 1
unfolding atoi signed digits
atoi_negative = refl

mp_init-ipc_example :
    Ensures (λ o t. o ≡ none) Unit (mp_init plain (host ipc_on) (1 ∷ 3 ∷ []) 0 0 1 (start []))
mp_init-ipc_example =
    mp_init-ipc plain (host ipc_on) (1 ∷ 3 ∷ []) 0 0 1 (start []) set_ipc (λ w. refl)
      (refl, (refl, tt)) (omega arith) (omega arith) refl

slots_offset-Apart_example :
    (slots_offset 136 256 4 1 2 + 136 * 256 ≤ shm_filesize 136 256 4)
    × (((◌≡◌ {A = ℕ} 1 2) × (◌≡◌ {A = ℕ} 2 1))
        ⊎ Apart (slots_offset 136 256 4 1 2) (slots_offset 136 256 4 2 1) (136 * 256))
slots_offset-Apart_example =
    slots_offset-Apart 136 256 4 1 2 2 1 (omega arith) (omega arith) (omega arith) (omega arith)
      (omega arith)
