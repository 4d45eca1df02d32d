-- ===== src/Triggers/Pipeline.antt =====
-- A batch of prepared sends, the stream that is within it, and `progress_posted_list`: the event-
-- synchronous mode of src/mp_peersync.c and src/mp.c from the post to the queue pair.
use libmp.Base.{
  Bool-cases, ◌==◌, if◌then◌else◌, ℕ, zero, suc, ◌<◌, ◌≤◌, ◌≡◌, ◌≢◌, refl, ◌∙◌, ap, sym, subst,
  true, List, [], ◌∷◌, ◌++◌, All, arith, ◌∈◌, ◌⊎◌, inl, inr, update, update_self,
}
use libmp.Types.{Code, Ptr, tx_flow, at_flow, set_flow, pending, Desc}
use libmp.Env.{Env}
use libmp.Machine.{State, M, ok, pure, gets, ◌>>=◌, ◌>>◌}
use libmp.Machine.Outcome.{Returns, returns, Returns-bind, Returns-and}
use libmp.Posted.{posted_loop}
use libmp.Posted.Loop.{Postable}
use libmp.Posted.Prefix.{All-map}
use libmp.Stream.{collect, post_prepared}
use libmp.Triggers.{Between, mark, trigger_values, update-marks}
use libmp.Triggers.Batches.{Between-same, post_all-Between}
use libmp.Triggers.Ordered.{ids, OrderedQueue}
use libmp.Triggers.Reached.{after_writes, Reached, posted_loop-Reached}
use libmp.Triggers.Released.{Keys}
use libmp.Triggers.Joined.{Apart, Joinable, Joined, collect-Joined}

abbrev pub take : {A : Type 0} → ℕ → List A → List A
take zero xs = []
take (suc n) [] = []
take (suc n) (x ∷ xs) = x ∷ take n xs

abbrev pub drop : {A : Type 0} → ℕ → List A → List A
drop zero xs = xs
drop (suc n) [] = []
drop (suc n) (x ∷ xs) = drop n xs

take-drop : {A : Type 0} (n : ℕ) (xs : List A) → take n xs ++ drop n xs ≡ xs
take-drop zero xs = refl
take-drop (suc n) [] = refl
take-drop {A} (suc n) (x ∷ xs) = ap {A = List A} {B = List A} (λ ys. x ∷ ys) (take-drop n xs)

module _ {W : Type 0} (i word : ℕ) where
  -- the stream has written the values to the trigger word of client `i`, which held `word`
  abbrev pub ran : List ℕ → State W → State W
  ran values t = record t {
    clients = update t.clients i (record (t.clients i) {
      last_trigger_id = set_flow (t.clients i).last_trigger_id tx_flow (after_writes word values);
    });
  }

  ran-word :
      (values : List ℕ) (t : State W)
      → at_flow ((ran values t).clients i).last_trigger_id tx_flow ≡ after_writes word values
  ran-word values t = simp update_self refl

  ran-OrderedQueue :
      (low : ℕ) (values : List ℕ) (xs : List Ptr) (t : State W)
      → OrderedQueue i low xs t
      → OrderedQueue i low xs (ran values t)
  ran-OrderedQueue low values xs t (q, up) = (
    simp update_self (record { chain = q.chain; links = q.links; last = q.last }),
    simp update_self up,
  )

module _ {W : Type 0} (env : Env W) (i word : ℕ) where
  -- The stream comes through the first `k` descriptors, and progress looks at the posted list.
  abbrev pub progress_within : (k : ℕ) → List Desc → M W (Code × (Code × List Desc))
  progress_within k descs = do
    (λ t. ok tt (ran i word (trigger_values i tx_flow (take k descs)) t))
    brk ← gets (λ t. t.brk)
    code ← posted_loop env brk i tx_flow
    pure (code, (0, descs))

  -- The loop of `mp_send_post_all_on_stream` builds the batch, which the stream gets if there was no
  -- error.
  abbrev pub post_and_progress : (k : ℕ) → List Ptr → M W (Code × (Code × List Desc))
  post_and_progress k reqs = do
    (ret, descs) ← collect (post_prepared env true) reqs []
    if ret == 0 then progress_within k descs else pure (0, (ret, descs))

  -- A request whose id was written is pending, one whose id is still to be written is as it was.
  abbrev pub Passed : (k : ℕ) → List Desc → (s u : State W) → Ptr → Type 0
  Passed k descs s u a =
      ((s.reqs a).id ∈ trigger_values i tx_flow (take k descs) → (u.reqs a).status ≡ pending)
      × ((s.reqs a).id ∈ trigger_values i tx_flow (drop k descs)
          → (u.reqs a).status ≡ (s.reqs a).status)

  -- what holds at the end: both codes, or the ids of the batch and all requests
  abbrev pub Progressed :
      (k : ℕ) → (xs reqs : List Ptr) → State W → Code × (Code × List Desc) → State W → Type 0
  Progressed k xs reqs s r u =
      (r.1.0 ≢ 0)
      ⊎ ((trigger_values i tx_flow r.1.1 ≡ ids s.reqs reqs)
          × ((r.0 ≢ 0) ⊎ All (Passed k r.1.1 s u) (xs ++ reqs)))

  Reached-Passed :
      (low k : ℕ) (descs : List Desc) (s t u : State W) (a : Ptr)
      → Keys (s.reqs a) (t.reqs a)
      → Reached env i low (take k descs) (drop k descs) t u a
      → Passed k descs s u a
  Reached-Passed low k descs s t u a (type, status, id, peer) (first, rest) =
      (λ inside. first (rw id inside), λ outside. rest (rw id outside) ∙ status)

  Postable-kept :
      (s t : State W) (ys : List Ptr)
      → ((a : Ptr) → Keys (s.reqs a) (t.reqs a))
      → All (Postable s.reqs) ys
      → All (Postable t.reqs) ys
  Postable-kept s t ys keys all =
      All-map ys all
        λ a inside (ready, tx). let (type, status, _, _) = keys a in (rw status ready, rw type tx)

  within-Progressed :
      (low k : ℕ) (xs reqs : List Ptr) (descs : List Desc) (s t : State W)
      → word ≤ mark s i tx_flow
      → 0 < s.brk
      → All (Postable s.reqs) (xs ++ reqs)
      → All (λ a. a < s.brk) (xs ++ reqs)
      → Between s descs t
      → Joined env i low xs reqs [] s descs t
      → Returns (λ r u. Progressed k xs reqs s r u) (progress_within k descs t)
  within-Progressed low k xs reqs descs s t le pos ready below between j =
      let values : List ℕ = trigger_values i tx_flow (take k descs) in
      let v : State W = ran i word values t in
      let between' : Between s (take k descs ++ drop k descs) v =
        subst (λ ds. Between s ds v) (sym (take-drop k descs))
          (Between-same env s t v descs between λ a. update-marks t.clients i _ refl a) in
      Returns-bind
        (posted_loop-Reached env i low (take k descs) (drop k descs) word (xs ++ reqs) s v between'
          le (ran-word i word values t) (rw j.brk pos)
          (ran-OrderedQueue i word low values (xs ++ reqs) t j.queue) (rw j.brk below)
          (Postable-kept s t (xs ++ reqs) j.keys ready))
        λ code u either. returns (
          inr (
            j.values,
            elim either [
              | inl bad ↦ inl bad
              | inr all ↦ inr (
                  All-map (xs ++ reqs) all
                    λ a inside one. Reached-Passed low k descs s v u a (j.keys a) one)
            ],
          ))

  -- In the event-synchronous mode, let the posted list of client `i` have prepared transmit requests
  -- with ascending ids, and let other such requests of that client, distinct and on no list, be
  -- given to mp_send_post_all_on_stream, all allocated. Then its loop returns. If its code is 0, the
  -- batch writes the ids of these requests in their order to the client's trigger word; and if the
  -- stream, which has not gone beyond the last id posted before, comes through the first `k`
  -- descriptors of the batch, then the loop of progress_posted_list returns, and if its code is 0
  -- too, each request of the list and of the batch whose id is among those written is pending, and
  -- each one whose id is still to be written has the status that it had.
  pub post_and_progress-Progressed :
      (low k : ℕ) (xs reqs : List Ptr) (s : State W)
      → word ≤ mark s i tx_flow
      → 0 < s.brk
      → OrderedQueue i low xs s
      → Apart xs reqs
      → All (Joinable env i s.reqs) reqs
      → All (Postable s.reqs) (xs ++ reqs)
      → All (λ a. a < s.brk) (xs ++ reqs)
      → Returns (λ r u. Progressed k xs reqs s r u) (post_and_progress k reqs s)
  post_and_progress-Progressed low k xs reqs s le pos q apart all ready below =
      Returns-bind
        (Returns-and (collect-Joined env i low true reqs xs [] s q apart all)
          (post_all-Between env reqs s).0)
        λ (ret, descs) t (either, between). elim (Bool-cases (ret == 0)) [
          | inr e ↦ rw e (returns (inl (ground arith)))
          | inl e ↦ rw e (elim either [
            | inl bad ↦ absurd (bad (ground arith))
            | inr j ↦ within-Progressed low k xs reqs descs s t le pos ready below between j
          ])
        ]
