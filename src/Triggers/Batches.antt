-- ===== src/Triggers/Batches.antt =====
-- The trigger ids in the batch operations of src/mp_peersync.c, as wholes.
use libmp.Base.{
  ℕ, refl, sym, subst, Bool, true, false, List, [], ◌∷◌, ◌++◌, arith, ◌==◌, ltb, leb, if◌then◌else◌,
  Bool-cases, inl, inr, Option-cases,
}
use libmp.Types.{
  Code, Ptr, null, Flows, MpFlow, tx_flow, at_flow, Desc, write_value32, wait_value32, Word32,
  WaitCond, trigger_id, is_live_type, flow_of, Request,
}
use libmp.Env.{Env}
use libmp.Machine.{State, M, pure}
use libmp.Machine.Outcome.{Ensures, done, faults, Ensures-bind}
use libmp.Stream.{
  collect, post_prepared, advance_trigger, release_at, block_on, isend_prepared, and_batch,
}
use libmp.Triggers.{
  SameMarks, mark, Between, trigger_values, trigger_values-append, Ascends, Ascends-nil,
  Between-write, track-SameMarks, update-marks,
}

module _ {W : Type 0} (env : Env W) (s : State W) where
  open env use {config}

  pub Between-same :
      (t u : State W) (descs : List Desc) → Between s descs t → SameMarks t u → Between s descs u
  Between-same t u descs between same i flow =
      subst
        (λ (m : Flows ℕ). Ascends (mark s i flow) (trigger_values i flow descs) (at_flow m flow))
        (sym (same i)) (between i flow)

  Ascends-wait :
      (low high i : ℕ) (flow : MpFlow) (descs : List Desc) (word : Word32) (value : ℕ)
      (cond : WaitCond)
      → Ascends low (trigger_values i flow descs) high
      → Ascends low (trigger_values i flow (descs ++ wait_value32 word value cond ∷ [])) high
  Ascends-wait low high i flow descs word value cond up =
      rw (trigger_values-append i flow descs (wait_value32 word value cond ∷ []))
        (Ascends-nil low (trigger_values i flow descs) high up)

  release_at-Between :
      (client : ℕ) (flow : MpFlow) (p : Ptr) (id : ℕ) (descs : List Desc) (t : State W)
      → Between s (descs ++ write_value32 (trigger_id client flow) id ∷ []) t
      → Ensures (λ batch u. Between s batch.1 u) Unit (release_at env client flow p id descs t)
  unfolding release_at
  release_at-Between client flow p id descs t between =
      elim (Bool-cases
        ((env.gds_prepare_write_value32 (trigger_id client flow) id t.world).0 == 0)) [
          | inl e ↦ rw e (
              Ensures-bind (track-SameMarks client p tx_flow _) (λ f. f)
                λ _ u same. done (
                  Between-same t u (descs ++ write_value32 (trigger_id client flow) id ∷ []) between
                    same))
          | inr e ↦ rw e (done between)
        ]

  block_on-Between :
      (client : ℕ) (watermark flow : MpFlow) (p : Ptr) (id : ℕ) (descs : List Desc) (t : State W)
      → Between s descs t
      → Ensures
          (λ batch u. Between s batch.1 u)
          Unit
          (block_on env client watermark flow p id descs t)
  unfolding block_on
  block_on-Between client watermark flow p id descs t between =
      elim (Bool-cases (ltb (at_flow (t.clients client).last_posted_tracked_id watermark) id)) [
        | inr e ↦ rw e (done between)
        | inl e ↦ rw e (elim (Bool-cases (p == null)) [
          | inl e' ↦ rw e' (faults tt)
          | inr e' ↦ rw e' (
              done λ j f. Ascends-wait (mark s j f) _ j f descs _ id _ (
                subst
                  (λ (m : Flows ℕ). Ascends (mark s j f) (trigger_values j f descs) (at_flow m f))
                  (sym (update-marks t.clients client _ refl j)) (between j f)))
        ])
      ]

  blocked :
      (block : Bool) (client : ℕ) (flow : MpFlow) (p : Ptr) (id ret : ℕ) (descs : List Desc)
      (t : State W)
      → Between s descs t
      → Ensures
          (λ batch u. Between s batch.1 u)
          Unit
          ((if block
              then and_batch (ret, descs) (block_on env client tx_flow flow p id)
              else pure (ret, descs))
            t)
  blocked false client flow p id ret descs t between = done between
  blocked true client flow p id ret descs t between = elim (Bool-cases (ret == 0)) [
    | inl e ↦ rw e (block_on-Between client tx_flow flow p id descs t between)
    | inr e ↦ rw e (done between)
  ]

  post_prepared-Between :
      (block : Bool) (p : Ptr) (descs : List Desc) (t : State W)
      → Between s descs t
      → Ensures (λ batch u. Between s batch.1 u) Unit (post_prepared env block p descs t)
  unfolding post_prepared advance_trigger
  post_prepared-Between block p descs t between =
      let r : Request = t.reqs p in
      elim (Bool-cases (p == null)) [
        | inl e ↦ rw e (faults tt)
        | inr e ↦ rw e (elim (Option-cases (config.client_index r.peer)) [
          | inl e' ↦ rw e' (faults tt)
          | inr (i, e') ↦ rw e' (elim (Bool-cases (is_live_type r.type)) [
            | inr dead ↦ rw dead (faults tt)
            | inl live ↦ rw live (elim (Bool-cases (leb r.id (mark t i (flow_of r.type)))) [
              | inl old ↦ rw old (done between)
              | inr new ↦ rw new (
                  Ensures-bind
                    (release_at-Between i (flow_of r.type) p r.id descs _
                      (Between-write s t descs i (flow_of r.type) r.id between (ground arith)))
                    (λ f. f)
                    λ (ret, descs') u between'.
                      blocked block i (flow_of r.type) p r.id ret descs' u between')
            ])
          ])
        ])
      ]

  isend_prepared-Between :
      (p : Ptr) (descs : List Desc) (t : State W)
      → Between s descs t
      → Ensures (λ batch u. Between s batch.1 u) Unit (isend_prepared env p descs t)
  unfolding isend_prepared
  isend_prepared-Between p descs t between =
      Ensures-bind (post_prepared-Between false p descs t between) (λ f. f)
        λ (ret, descs') u between'. done between'

  collect-Between :
      (body : Ptr → List Desc → M W (Code × List Desc))
      → ((p : Ptr) (descs : List Desc) (t : State W)
          → Between s descs t
          → Ensures (λ batch u. Between s batch.1 u) Unit (body p descs t))
      → (reqs : List Ptr) (descs : List Desc) (t : State W) → Between s descs t
      → Ensures (λ batch u. Between s batch.1 u) Unit (collect body reqs descs t)
  unfolding collect
  collect-Between body keeps [] descs t between = done between
  collect-Between body keeps (p ∷ reqs) descs t between =
      Ensures-bind (keeps p descs t between) (λ f. f)
        λ (ret, descs') u between'. elim (Bool-cases (ret == 0)) [
          | inl e ↦ rw e (collect-Between body keeps reqs descs' u between')
          | inr e ↦ rw e (done between')
        ]

-- In the event-synchronous mode, the batches that mp_send_post_all_on_stream and
-- mp_isend_post_all_on_stream build from any requests write ids to each trigger word that ascend
-- strictly, from above the last id posted for that word before to at most the last one posted
-- after, whether or not an error ends the loop; the loops return or fault.
pub post_all-Between :
    {W : Type 0} (env : Env W) (reqs : List Ptr) (s : State W)
    → Ensures (λ batch t. Between s batch.1 t) Unit (collect (post_prepared env true) reqs [] s)
      × Ensures (λ batch t. Between s batch.1 t) Unit (collect (isend_prepared env) reqs [] s)
post_all-Between env reqs s = (
  collect-Between env s (post_prepared env true) (post_prepared-Between env s true) reqs [] s
      λ i flow. omega arith,
  collect-Between env s (isend_prepared env) (isend_prepared-Between env s) reqs [] s
      λ i flow. omega arith,
)
