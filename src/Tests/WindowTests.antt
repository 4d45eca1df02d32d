-- ===== src/Tests/WindowTests.antt =====
-- The theorems on windows at concrete states.
use libmp.Base.{ℕ, ◌==◌, if◌then◌else◌, ap, sym, Option, none, some, [], arith}
use mathlib.Core.Path.{fun_ext}
use libmp.Types.{IbvMr}
use libmp.Env.{Env}
use libmp.Machine.Outcome.{Ensures}
use libmp.Send.{MpWindow}
use libmp.Windows.{contribution, mp_window_create}
use libmp.Windows.Exchange.{Describes, mp_window_create-Describes}
use libmp.Tests.Setup.{Script, plain, pooled}

-- Rank 0, which is this process, exposes 64 bytes at 4096, and each other rank 32 bytes at 8192.
abbrev starts : ℕ → ℕ
starts rank = if rank == 0 then 4096 else 8192

abbrev sizes : ℕ → ℕ
sizes rank = if rank == 0 then 64 else 32

abbrev keys : ℕ → ℕ
keys rank = if rank == 0 then 6 else 9

abbrev gathering : Env Script
gathering = record plain {
  mpi_allgather = λ mine w. (λ rank. if rank == 0 then mine else contribution 8192 32 9, w);
}

mp_window_create-Describes_example :
    Ensures
      (λ r _. Describes gathering starts sizes keys (pooled []).clients r)
      Unit
      (mp_window_create gathering 4096 64 (pooled []))
mp_window_create-Describes_example =
    mp_window_create-Describes gathering starts sizes keys (pooled [])
      (λ w mr e. ap {A = Option IbvMr} {B = ℕ} (λ m. elim m [ none ↦ 6 | some r ↦ r.rkey ]) (sym e))
      (λ w. fun_ext λ rank. ground arith)

abbrev exposed : MpWindow
exposed = record {
  base_ptr = λ _. 8192;
  rkey = λ _. 6;
  rsize = λ _. 64;
  reg = record { key = 5; mr = record { lkey = 5; rkey = 6 } };
}
