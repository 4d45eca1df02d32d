-- ===== src/Triggers.antt =====
-- The order of the trigger ids in the batches that `mp_send_post_all_on_stream` and
-- `mp_isend_post_all_on_stream` of src/mp_peersync.c build in the event-synchronous mode.
pub mod Batches
pub mod Ordered
pub mod Due
pub mod Reached
pub mod Released
pub mod Joined
pub mod Pipeline
pub mod Tracked
pub mod Waited
use libmp.Base.{
  ℕ, ◌<◌, ◌≤◌, ◌≡◌, refl, ◌∙◌, ap, sym, subst, Bool, true, false, ◌&&◌, List, [], ◌∷◌, ◌++◌, arith,
  ◌==◌, ltb, leb, if◌then◌else◌, update, update_self, update_ne, Bool-cases, inl, inr, Option, none,
  some,
}
use libmp.Types.{
  Code, Ptr, null, Client, MpFlow, tx_flow, rx_flow, Flows, at_flow, set_flow, Desc, write_value32,
  wait_value32, send_desc, wait_desc, trigger_id, tracked_id, user_word, is_live_type, flow_of,
}
use libmp.Env.{Env}
use libmp.Machine.{State, M}
use libmp.Machine.Outcome.{Ensures, done, faults, Ensures-bind, Ensures-mono}
use libmp.Machine.Commands.{assert-keeps}
use libmp.Posted.{append_req, client_track_posted_stream_req}
use libmp.Stream.{collect, post_prepared, advance_trigger, release_at, block_on, isend_prepared}

abbrev pub same_flow : MpFlow → MpFlow → Bool
same_flow tx_flow tx_flow = true
same_flow rx_flow rx_flow = true
same_flow tx_flow rx_flow = false
same_flow rx_flow tx_flow = false

-- the values that a batch writes to one trigger word, in order
abbrev pub trigger_values : (client : ℕ) → MpFlow → List Desc → List ℕ
trigger_values i flow [] = []
trigger_values i flow (write_value32 (trigger_id j f) value ∷ descs) =
    if (i == j) && same_flow flow f
    then value ∷ trigger_values i flow descs
    else trigger_values i flow descs
trigger_values i flow (write_value32 (tracked_id j f) value ∷ descs) = trigger_values i flow descs
trigger_values i flow (write_value32 (user_word ptr) value ∷ descs) = trigger_values i flow descs
trigger_values i flow (wait_value32 word value cond ∷ descs) = trigger_values i flow descs
trigger_values i flow (send_desc info ∷ descs) = trigger_values i flow descs
trigger_values i flow (wait_desc info ∷ descs) = trigger_values i flow descs

-- The values ascend strictly from above `low`, and `high` is not below them.
abbrev pub Ascends : (low : ℕ) → List ℕ → (high : ℕ) → Type 0
Ascends low [] high = low ≤ high
Ascends low (x ∷ xs) high = (low < x) × Ascends x xs high

pub Ascends-raise :
    (low : ℕ) (xs : List ℕ) (high top : ℕ) → Ascends low xs high → high ≤ top → Ascends low xs top
Ascends-raise low [] high top up le = omega arith
Ascends-raise low (x ∷ xs) high top (lt, up) le = (lt, Ascends-raise x xs high top up le)

pub Ascends-snoc :
    (low : ℕ) (xs : List ℕ) (high x : ℕ)
    → Ascends low xs high
    → high < x
    → Ascends low (xs ++ x ∷ []) x
Ascends-snoc low [] high x up lt = (omega arith, omega arith)
Ascends-snoc low (y ∷ xs) high x (lt', up) lt = (lt', Ascends-snoc y xs high x up lt)

pub trigger_values-append :
    (i : ℕ) (flow : MpFlow) (xs ys : List Desc)
    → trigger_values i flow (xs ++ ys) ≡ trigger_values i flow xs ++ trigger_values i flow ys
trigger_values-append i flow [] ys = refl
trigger_values-append i flow (write_value32 (trigger_id j f) value ∷ xs) ys =
    elim (Bool-cases ((i == j) && same_flow flow f)) [
      | inl e ↦ rw (e, trigger_values-append i flow xs ys) refl
      | inr e ↦ rw (e, trigger_values-append i flow xs ys) refl
    ]
trigger_values-append i flow (write_value32 (tracked_id j f) value ∷ xs) ys =
    trigger_values-append i flow xs ys
trigger_values-append i flow (write_value32 (user_word ptr) value ∷ xs) ys =
    trigger_values-append i flow xs ys
trigger_values-append i flow (wait_value32 word value cond ∷ xs) ys =
    trigger_values-append i flow xs ys
trigger_values-append i flow (send_desc info ∷ xs) ys = trigger_values-append i flow xs ys
trigger_values-append i flow (wait_desc info ∷ xs) ys = trigger_values-append i flow xs ys

-- the ids posted so far for one word
abbrev pub mark : {W : Type 0} → State W → ℕ → MpFlow → ℕ
mark s i flow = at_flow (s.clients i).last_posted_trigger_id flow

-- the values of a batch ascend from the marks of `s` to those of `t`
abbrev pub Between : {W : Type 0} → State W → List Desc → State W → Type 0
Between s descs t =
    (i : ℕ) (flow : MpFlow) → Ascends (mark s i flow) (trigger_values i flow descs) (mark t i flow)

abbrev pub SameMarks : {W : Type 0} → State W → State W → Type 0
SameMarks s t =
    (i : ℕ) → (t.clients i).last_posted_trigger_id ≡ (s.clients i).last_posted_trigger_id

pub update-marks :
    (f : ℕ → Client) (i : ℕ) (c : Client)
    → c.last_posted_trigger_id ≡ (f i).last_posted_trigger_id
    → (j : ℕ) → (update f i c j).last_posted_trigger_id ≡ (f j).last_posted_trigger_id
update-marks f i c e j = elim (Bool-cases (j == i)) [
  | inl eq ↦
      let p : i ≡ j = ground arith in
      subst (λ k. (update f i c k).last_posted_trigger_id ≡ (f k).last_posted_trigger_id) p
        (ap (λ (d : Client). d.last_posted_trigger_id) (update_self f i c) ∙ e)
  | inr ne ↦ ap (λ (d : Client). d.last_posted_trigger_id) (update_ne f i j c (ground arith))
]

module _ {W : Type 0} where
  append_req-SameMarks :
      (last p : Ptr) (s : State W) → Ensures (λ _ t. SameMarks s t) Unit (append_req last p s)
  unfolding append_req
  append_req-SameMarks last p s = elim (Bool-cases (last == null)) [
    | inl e ↦ rw e (faults tt)
    | inr e ↦ rw e (elim (Bool-cases (p == null)) [
      | inl e' ↦ rw e' (faults tt)
      | inr e' ↦ rw (e', e') (assert-keeps (λ t. SameMarks s t) _ _ λ i. refl)
    ])
  ]

  pub track-SameMarks :
      (i : ℕ) (p : Ptr) (flow : MpFlow) (s : State W)
      → Ensures (λ _ t. SameMarks s t) Unit (client_track_posted_stream_req i p flow s)
  unfolding client_track_posted_stream_req
  track-SameMarks i p flow s =
      elim (Bool-cases (at_flow (s.clients i).posted_stream_req flow == null)) [
        | inl e ↦
            rw e (elim (Bool-cases (at_flow (s.clients i).last_posted_stream_req flow == null)) [
              | inl e' ↦ rw e' (done (update-marks s.clients i _ refl))
              | inr e' ↦ rw e' (faults tt)
            ])
        | inr e ↦ rw e (
            Ensures-bind
              (append_req-SameMarks (at_flow (s.clients i).last_posted_stream_req flow) p s)
              (λ f. f) λ _ t same. done λ j. update-marks t.clients i _ refl j ∙ same j)
      ]

pub Ascends-nil :
    (low : ℕ) (xs : List ℕ) (high : ℕ) → Ascends low xs high → Ascends low (xs ++ []) high
Ascends-nil low [] high up = up
Ascends-nil low (x ∷ xs) high (lt, up) = (lt, Ascends-nil x xs high up)

pub at_flow-set_flow :
    (marks : Flows ℕ) (flow f : MpFlow) (id : ℕ)
    → at_flow (set_flow marks flow id) f ≡ (if same_flow f flow then id else at_flow marks f)
at_flow-set_flow marks tx_flow tx_flow id = refl
at_flow-set_flow marks tx_flow rx_flow id = refl
at_flow-set_flow marks rx_flow tx_flow id = refl
at_flow-set_flow marks rx_flow rx_flow id = refl

pub same_flow-eq : (f flow : MpFlow) → same_flow f flow ≡ true → f ≡ flow
same_flow-eq tx_flow tx_flow e = refl
same_flow-eq tx_flow rx_flow e = ground arith
same_flow-eq rx_flow tx_flow e = ground arith
same_flow-eq rx_flow rx_flow e = refl

-- the client with a new mark
abbrev pub marked : Client → MpFlow → ℕ → Client
marked c flow id = record c { last_posted_trigger_id = set_flow c.last_posted_trigger_id flow id }

mark-marked :
    (clients : ℕ → Client) (i : ℕ) (flow : MpFlow) (id j : ℕ) (f : MpFlow)
    → at_flow (update clients i (marked (clients i) flow id) j).last_posted_trigger_id f
      ≡ (if (j == i) && same_flow f flow then id else at_flow (clients j).last_posted_trigger_id f)
mark-marked clients i flow id j f = elim (Bool-cases (j == i)) [
  | inl e ↦
      let p : j ≡ i = ground arith in
      rw (e, p, update_self clients i (marked (clients i) flow id))
        (at_flow-set_flow (clients i).last_posted_trigger_id flow f id)
  | inr e ↦ rw (e, update_ne clients i j (marked (clients i) flow id) (ground arith)) refl
]

module _ {W : Type 0} where
  -- One more write, of an id above the mark, which becomes the mark.
  pub Between-write :
      (s t : State W) (descs : List Desc) (i : ℕ) (flow : MpFlow) (id : ℕ)
      → Between s descs t
      → mark t i flow < id
      → (j : ℕ) (f : MpFlow)
      → Ascends
          (mark s j f)
          (trigger_values j f (descs ++ write_value32 (trigger_id i flow) id ∷ []))
          (at_flow (update t.clients i (marked (t.clients i) flow id) j).last_posted_trigger_id f)
  Between-write s t descs i flow id between lt j f =
      rw
        (
          trigger_values-append j f descs (write_value32 (trigger_id i flow) id ∷ []),
          mark-marked t.clients i flow id j f,
        )
        (elim (Bool-cases ((j == i) && same_flow f flow)) [
          | inl e ↦
              let p : j ≡ i = ground arith in
              let q : f ≡ flow = same_flow-eq f flow (ground arith) in
              rw e (
                Ascends-snoc (mark s j f) (trigger_values j f descs) (mark t j f) id (between j f)
                  (rw (p, q) lt))
          | inr e ↦
              rw e (Ascends-nil (mark s j f) (trigger_values j f descs) (mark t j f) (between j f))
        ])
