-- ===== src/Tests/CommTests.antt =====
-- The theorems on the layer of src/comm_library/comm.cpp at concrete inputs.
use libmp.Base.{
  ℕ, ◌≤◌, ◌<◌, ◌≢◌, ◌≡◌, refl, ◌⊎◌, ◌↔◌, true, false, some, List, [], ◌∷◌, arith, subst, update,
}
use libmp.Types.{entries}
use libmp.Machine.{Fault, fault, ◌>>=◌}
use libmp.Machine.Outcome.{Returns, Ensures}
use libmp.Device.{WaitDesc, Mlx5}
use libmp.Comm.Tables.{Comm, Memory, no_descs, comm_init, comm_track_request}
use libmp.Comm.Handshake.{is_ready, comm_send_ready, comm_wait_ready}
use libmp.Comm.Messages.{comm_wait, comm_flush}
use libmp.Comm.Indexed.{Indexed, comm_init-Indexed}
use libmp.Comm.Protocol.{Pair, announce, arrive, Reach, here, step, fresh, handshake_safe}
use libmp.Comm.Collected.{collect_for_kernel, Handed, collect_for_kernel-Handed}
use libmp.Comm.Ends.{seen, Ended, comm_wait_ready-ends}
use libmp.Comm.Flush.{Flushed, comm_flush-comm_track_request}
use libmp.Comm.Announce.{Announces, comm_send_ready-Announces}
use libmp.Comm.Stale.{comm_flush-comm_wait}
use libmp.Tests.Setup.{Script, plain, start, pooled, pooled-FreeList}
use libmp.Tests.WaitTests.{finished, finished-FreeList}
use libmp.Tests.InitTests.{host, unset, unset_ipc}

-- The word of the table is 1 once the script is at its end.
abbrev look : Script → ℕ × Script
look [] = (1, [])
look (x ∷ script) = (0, script)

abbrev memory : Memory Script
memory = record {
  ready_table = 4096;
  remote_ready_values = 8192;
  read_ready_table = λ rank w. look w;
  clear_ready_table = λ rank w. (tt, w);
}

comm_init-Indexed_example :
    Ensures
      (λ c t. Indexed memory plain (host unset) c t)
      Unit
      (comm_init memory plain (host unset) 0 1 (start []))
comm_init-Indexed_example =
    comm_init-Indexed memory plain (host unset) 0 1 (start []) unset_ipc (omega arith) (omega arith)
      (omega arith) refl

-- one announcement that came and one on its way
abbrev announced_once : Pair
announced_once = record fresh { next = 2; flight = 1 ∷ []; sent = 1 }

abbrev twice : Pair
twice = record { next = 3; flight = 2 ∷ []; word = 1; value = 1; sent = 2; passed = 0 }

twice-Reach : Reach twice
twice-Reach =
    step (step (step here (announce fresh)) (announce announced_once))
      (arrive (record fresh { next = 3; flight = 1 ∷ 2 ∷ []; sent = 2 }) refl)

handshake_safe_example :
    (0 ≤ 2) × (((◌≢◌ {A = List ℕ} (2 ∷ []) []) ⊎ ((is_ready 1 1 ≡ true) ↔ (0 < 2))))
handshake_safe_example = handshake_safe twice twice-Reach (omega arith)

-- what comm_init leaves for two ranks, with request 7 tracked
abbrev comm : Comm
comm = record {
  config = plain.config;
  comm_initialized = true;
  comm_size = 2;
  comm_rank = 0;
  rank_to_peer = λ rank. some 0;
  peers = 1 ∷ [];
  ready_values = λ rank. 1;
  remote_ready_values = λ rank. 1;
  remote_ready_values_key = 5;
  ready_table_win = record {
    base_ptr = λ i. 4096;
    rkey = λ i. 6;
    rsize = λ i. 4096;
    reg = record { mr = record { lkey = 5; rkey = 6 }; key = 5 };
  };
  reqs = 7 ∷ [];
  dreqs = λ i. no_descs;
  dreq_idx = 127;
}

first_look : is_ready (seen plain memory 1 0 (entries [] ∷ [])) 1 ≡ false
first_look = refl

comm_wait_ready-ends_example :
    Returns
      (λ d t. Ended plain memory 1 1 comm d (start (entries [] ∷ [])) t)
      (comm_wait_ready plain memory 2 1 comm (start (entries [] ∷ [])))
comm_wait_ready-ends_example =
    comm_wait_ready-ends plain memory 1 1 2 comm (start (entries [] ∷ [])) refl (omega arith)
      (omega arith) (omega arith)
      (λ k lt.
        let e : 0 ≡ k = omega arith in
        subst (λ j. is_ready (seen plain memory 1 j (entries [] ∷ [])) 1 ≡ false) e first_look)
      refl

comm_flush-comm_wait_example :
    (comm_wait plain 1 7 comm >>= λ handle. comm_flush plain 1 comm) finished
    ≡ fault Fault.assertion
unfolding update
comm_flush-comm_wait_example =
    comm_flush-comm_wait plain 0 1 7 [] [] (1 ∷ 2 ∷ 3 ∷ 4 ∷ []) comm finished (λ w. (0, refl)) refl
      refl refl (omega arith) refl tt ((ground arith, refl, refl), refl) finished-FreeList
      (omega arith) (ground arith)

abbrev described : (info : ℕ) → WaitDesc
described info = record {
  sema_cond = 1;
  sema = record { ptr = info; value = 2 };
  flag = record { ptr = info; value = 0 };
}

abbrev mlx5 : Mlx5 Script
mlx5 = record {
  gds_mlx5_get_dword_wait_info = λ ptr value w. ((0, record { ptr = ptr; value = value }), w);
  gds_mlx5_get_send_info = λ info w. (
    (
      22,
      record { dbrec = record { ptr = info; value = 1 }; db = record { ptr = info; value = 2 } },
    ),
    w,
  );
  gds_mlx5_get_wait_info = λ info w. ((0, described info), w);
}

collect_for_kernel-Handed_example :
    Returns
      (λ r t. (r.0 ≡ 0) × Handed described comm finished (8 ∷ 7 ∷ []) r.1.0 r.1.1 t)
      (collect_for_kernel plain mlx5 memory (8 ∷ 7 ∷ []) comm finished)
unfolding update
collect_for_kernel-Handed_example =
    collect_for_kernel-Handed plain mlx5 memory described (8 ∷ 7 ∷ []) comm finished
      (λ info w. refl) refl (omega arith) (refl, (refl, tt))
      (ground arith, ((0, refl), refl), (ground arith, ((0, refl), refl), tt)) (omega arith)

comm_flush-comm_track_request_example :
    Returns
      (λ r t. (r.0 ≡ 0) × Flushed plain (7 ∷ 8 ∷ []) (1 ∷ 2 ∷ 3 ∷ 4 ∷ []) comm r.1 finished t)
      ((comm_track_request comm 8 >>= λ d. comm_flush plain 1 d) finished)
unfolding update
comm_flush-comm_track_request_example =
    comm_flush-comm_track_request plain 0 8 (1 ∷ 2 ∷ 3 ∷ 4 ∷ []) comm finished (λ w. (0, refl))
      (omega arith) finished-FreeList (ground arith)
      (((ground arith, refl, refl), refl), (((ground arith, refl, refl), refl), tt))

comm_send_ready-Announces_example :
    Ensures
      (λ r t. Announces plain memory 1 1 comm r t)
      Unit
      (comm_send_ready plain memory 1 0 comm (pooled []))
comm_send_ready-Announces_example =
    comm_send_ready-Announces plain memory 1 1 0 comm (pooled []) (1 ∷ 2 ∷ 3 ∷ 4 ∷ []) refl
      (omega arith) refl refl refl (ground arith) (omega arith) (pooled-FreeList [])
