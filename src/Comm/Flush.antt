-- ===== src/Comm/Flush.antt =====
-- `comm_flush` of src/comm_library/comm.cpp where all that was tracked is complete.
use libmp.Base.{
  ℕ, suc, ◌<◌, ◌≡◌, refl, ◌∉◌, true, false, List, [], ◌∷◌, arith, ◌==◌, ltb, length, All,
  length-append, ◌++◌, ◌+◌,
}
use libmp.Types.{Ptr}
use libmp.Env.{Env}
use libmp.Machine.{State, ◌>>=◌}
use libmp.Machine.Outcome.{Returns, returns, Returns-bind}
use libmp.Pool.FreeList.{FreeList}
use libmp.Wait.Release.{InUse}
use libmp.Wait.Ready.{Ready, stacked, mp_wait_all-Ready}
use libmp.Comm.Tables.{Comm, env_at, max_reqs, comm_track_request}
use libmp.Comm.Messages.{comm_flush}
use libmp.Comm.Stale.{Works}

module _ {W : Type 0} (env : Env W) where
  -- the requests `reqs` back in the pool, in front of `frees`, and nothing tracked
  abbrev pub Flushed : (reqs frees : List Ptr) → (c d : Comm) → (s t : State W) → Type 0
  Flushed reqs frees c d s t = record {
    tracked : d.reqs ≡ [];
    config : d.config ≡ c.config;
    pool : FreeList (stacked reqs frees) t;
    others : (a : Ptr) → a ∉ reqs → t.reqs a ≡ s.reqs a;
    clients : t.clients ≡ s.clients;
  }

  flush_some :
      (fuel : ℕ) (reqs frees : List Ptr) (c : Comm) (s : State W)
      → Works env
      → 0 < length reqs
      → length reqs < max_reqs
      → FreeList frees s
      → InUse s.brk frees reqs
      → All (Ready s.reqs) reqs
      → c.reqs ≡ reqs
      → Returns (λ r t. (r.0 ≡ 0) × Flushed reqs frees c r.1 s t) (comm_flush env (suc fuel) c s)
  unfolding comm_flush
  flush_some fuel reqs frees c s clock pos few fl used ready e =
      let (t0, now) = clock s.world in
      let n : (length reqs == 0) ≡ false = ground arith in
      let l : ltb (length reqs) max_reqs ≡ true = ground arith in
      simp (e, n, l)
        (Returns-bind (mp_wait_all-Ready (env_at env c) fuel t0 reqs frees s now fl used ready)
          λ code t (zero, pool, others, clients). returns (
            zero,
            record {
              tracked = refl;
              config = refl;
              pool = pool;
              others = others;
              clients = clients;
            },
          ))

  -- With a clock that works and room for one more request: if comm_track_request tracks a request, and
  -- all tracked requests are distinct, in use, complete and of a type that can be waited for, then
  -- comm_flush returns 0; it has given all of them back to the pool, the last one first, and tracks none.
  pub comm_flush-comm_track_request :
      (fuel p : ℕ) (frees : List Ptr) (c : Comm) (s : State W)
      → Works env
      → length c.reqs + 1 < max_reqs
      → FreeList frees s
      → InUse s.brk frees (c.reqs ++ p ∷ [])
      → All (Ready s.reqs) (c.reqs ++ p ∷ [])
      → Returns
          (λ r t. (r.0 ≡ 0) × Flushed (c.reqs ++ p ∷ []) frees c r.1 s t)
          ((comm_track_request c p >>= λ d. comm_flush env (suc fuel) d) s)
  unfolding comm_track_request
  comm_flush-comm_track_request fuel p frees c s clock few fl used ready =
      let room : ltb (length c.reqs) max_reqs ≡ true = ground arith in
      let count : length (c.reqs ++ p ∷ []) ≡ length c.reqs + 1 = length-append c.reqs (p ∷ []) in
      simp room (
        flush_some fuel (c.reqs ++ p ∷ []) frees (record c { reqs = c.reqs ++ p ∷ [] }) s clock
          (omega (arith, count)) (omega (arith, count)) fl used ready refl)
