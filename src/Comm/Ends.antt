-- ===== src/Comm/Ends.antt =====
-- The end of the wait for an announcement, `comm_wait_ready` of src/comm_library/comm.cpp.
use libmp.Base.{
  ℕ, zero, suc, ◌+◌, ◌<◌, ◌≤◌, ◌≡◌, refl, subst, sym, List, update_self, true, false, arith, ltb,
}
use libmp.Env.{Env}
use libmp.Machine.{State}
use libmp.Machine.Outcome.{Returns, returns, Returns-bind}
use libmp.Comm.Tables.{Comm, Memory, inc32}
use libmp.Comm.Protocol.{PairStep, pass, pair_of}
use libmp.Comm.Handshake.{is_ready, awaited, ready_loop, comm_wait_ready}

module _ {W : Type 0} (env : Env W) (memory : Memory W) (rank : ℕ) where
  -- the outside world after `n` looks at the word of the rank
  abbrev pub looked : (n : ℕ) → W → W
  looked zero w = w
  looked (suc n) w = looked n (memory.read_ready_table rank w).1

  -- what the next look sees
  abbrev pub seen : (n : ℕ) → W → ℕ
  seen n w = (memory.read_ready_table rank (looked n w)).0

  ready_loop-ends :
      (n fuel count : ℕ) (c : Comm) (s : State W)
      → n + count ≤ 10000
      → n < fuel
      → ((k : ℕ) → k < n → is_ready (seen k s.world) (c.ready_values rank) ≡ false)
      → is_ready (seen n s.world) (c.ready_values rank) ≡ true
      → Returns
          (λ _ t. t ≡ record s { world = looked (suc n) s.world })
          (ready_loop env memory fuel count rank c s)
  unfolding ready_loop
  ready_loop-ends n zero count c s few lt before now = absurd (omega arith)
  ready_loop-ends zero (suc fuel) count c s few lt before now = simp now (returns refl)
  ready_loop-ends (suc n) (suc fuel) count c s few lt before now =
      let soon : ltb 10000 (count + 1) ≡ false = ground arith in
      simp (before 0 (omega arith), soon)
        (ready_loop-ends n fuel (count + 1) c
          (record s { world = (memory.read_ready_table rank s.world).1 }) (omega arith)
          (omega arith) (λ k below. before (suc k) (omega arith)) now)

  -- The counters go on as in the step, if the word is ready.
  awaited-PairStep :
      (a : Comm) (r : ℕ) (c : Comm) (flight : List ℕ) (word sent passed : ℕ)
      → is_ready word (c.ready_values rank) ≡ true
      → PairStep
          (pair_of a r c rank flight word sent passed)
          (pair_of a r (awaited rank c) rank flight word sent (passed + 1))
  awaited-PairStep a r c flight word sent passed now =
      subst
        (λ n. PairStep (pair_of a r c rank flight word sent passed) (record {
          next = a.remote_ready_values r;
          flight = flight;
          word = word;
          value = n;
          sent = sent;
          passed = passed + 1;
        }))
        (sym (update_self c.ready_values rank (inc32 (c.ready_values rank))))
        (pass (pair_of a r c rank flight word sent passed) now)

  -- What the wait leaves after `n` looks that were too early.
  abbrev pub Ended : (n : ℕ) → (c d : Comm) → (s t : State W) → Type 0
  Ended n c d s t = record {
    counters : d ≡ awaited rank c;
    looks : t ≡ record s { world = looked (suc n) s.world };
    step :
        (a : Comm) (r : ℕ) (flight : List ℕ) (sent passed : ℕ)
        → PairStep (pair_of a r c rank flight (seen n s.world) sent passed)
            (pair_of a r d rank flight (seen n s.world) sent (passed + 1));
  }

  -- For a rank below the size, if one of the first 10001 looks at the rank's word finds it ready for
  -- the value awaited, then comm_wait_ready returns with the first such look, if its fuel is more than
  -- the looks before: it changes nothing but the outside world, by these looks, and the value awaited
  -- from the rank, by one step of the handshake.
  pub comm_wait_ready-ends :
      (n fuel : ℕ) (c : Comm) (s : State W)
      → c.comm_initialized ≡ true
      → rank < c.comm_size
      → n ≤ 10000
      → n < fuel
      → ((k : ℕ) → k < n → is_ready (seen k s.world) (c.ready_values rank) ≡ false)
      → is_ready (seen n s.world) (c.ready_values rank) ≡ true
      → Returns (λ d t. Ended n c d s t) (comm_wait_ready env memory fuel rank c s)
  unfolding comm_wait_ready
  comm_wait_ready-ends n fuel c s ready lt few enough before now =
      let below : ltb rank c.comm_size ≡ true = ground arith in
      simp (ready, below)
        (Returns-bind (ready_loop-ends n fuel 0 c s (omega arith) enough before now) λ _ t e.
          returns (record {
            counters = refl;
            looks = e;
            step = λ a r flight sent passed.
                awaited-PairStep a r c flight (seen n s.world) sent passed now;
          }))
