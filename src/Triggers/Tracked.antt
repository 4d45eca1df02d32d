-- ===== src/Triggers/Tracked.antt =====
-- The tracked ids that `mp_wait_all_on_stream` of src/mp_peersync.c makes a stream wait for in the
-- event-synchronous mode.
use libmp.Base.{
  ℕ, ◌<◌, ◌≤◌, ◌≡◌, refl, ◌∙◌, ◌&&◌, List, [], ◌∷◌, ◌++◌, arith, ◌==◌, if◌then◌else◌, update,
  update_self, update_ne, Bool-cases, inl, inr,
}
use libmp.Types.{
  Ptr, Request, Client, MpFlow, at_flow, set_flow, Desc, write_value32, wait_value32, send_desc,
  wait_desc, trigger_id, tracked_id, user_word, cond_geq,
}
use libmp.Machine.{State}
use libmp.Triggers.{same_flow, at_flow-set_flow, same_flow-eq}

-- the ids for which a batch waits at one tracked word, in order
abbrev pub wait_values : (client : ℕ) → MpFlow → List Desc → List ℕ
wait_values i flow [] = []
wait_values i flow (wait_value32 (tracked_id j f) value cond ∷ descs) =
    if (i == j) && same_flow flow f
    then value ∷ wait_values i flow descs
    else wait_values i flow descs
wait_values i flow (wait_value32 (trigger_id j f) value cond ∷ descs) = wait_values i flow descs
wait_values i flow (wait_value32 (user_word ptr) value cond ∷ descs) = wait_values i flow descs
wait_values i flow (write_value32 word value ∷ descs) = wait_values i flow descs
wait_values i flow (send_desc info ∷ descs) = wait_values i flow descs
wait_values i flow (wait_desc info ∷ descs) = wait_values i flow descs

-- The values ascend strictly from above `low`, and the last one, or `low` if there is none, is
-- `high`.
abbrev pub Climbs : (low : ℕ) → List ℕ → (high : ℕ) → Type 0
Climbs low [] high = low ≡ high
Climbs low (x ∷ xs) high = (low < x) × Climbs x xs high

pub Climbs-nil :
    (low : ℕ) (xs : List ℕ) (high : ℕ) → Climbs low xs high → Climbs low (xs ++ []) high
Climbs-nil low [] high up = up
Climbs-nil low (x ∷ xs) high (lt, up) = (lt, Climbs-nil x xs high up)

pub Climbs-snoc :
    (low : ℕ) (xs : List ℕ) (high x : ℕ)
    → Climbs low xs high
    → high < x
    → Climbs low (xs ++ x ∷ []) x
Climbs-snoc low [] high x up lt = (omega arith, refl)
Climbs-snoc low (y ∷ xs) high x (lt', up) lt = (lt', Climbs-snoc y xs high x up lt)

pub wait_values-append :
    (i : ℕ) (flow : MpFlow) (xs ys : List Desc)
    → wait_values i flow (xs ++ ys) ≡ wait_values i flow xs ++ wait_values i flow ys
wait_values-append i flow [] ys = refl
wait_values-append i flow (wait_value32 (tracked_id j f) value cond ∷ xs) ys =
    elim (Bool-cases ((i == j) && same_flow flow f)) [
      | inl e ↦ rw (e, wait_values-append i flow xs ys) refl
      | inr e ↦ rw (e, wait_values-append i flow xs ys) refl
    ]
wait_values-append i flow (wait_value32 (trigger_id j f) value cond ∷ xs) ys =
    wait_values-append i flow xs ys
wait_values-append i flow (wait_value32 (user_word ptr) value cond ∷ xs) ys =
    wait_values-append i flow xs ys
wait_values-append i flow (write_value32 word value ∷ xs) ys = wait_values-append i flow xs ys
wait_values-append i flow (send_desc info ∷ xs) ys = wait_values-append i flow xs ys
wait_values-append i flow (wait_desc info ∷ xs) ys = wait_values-append i flow xs ys

-- the last id for which a stream has been made to wait, at one word
abbrev pub tracked : {W : Type 0} → State W → ℕ → MpFlow → ℕ
tracked s i flow = at_flow (s.clients i).last_posted_tracked_id flow

-- the waits of a batch climb from the ids of `s` to those of `t`
abbrev pub Climbing : {W : Type 0} → State W → List Desc → State W → Type 0
Climbing s descs t =
    (i : ℕ) (flow : MpFlow)
    → Climbs (tracked s i flow) (wait_values i flow descs) (tracked t i flow)

-- what a wait goes by
abbrev pub SameKey : (q r : Request) → Type 0
SameKey q r = (r.id ≡ q.id) × (r.peer ≡ q.peer) × (r.type ≡ q.type)

-- Requests keep what a wait goes by, and no tracked id goes down.
abbrev pub Later : {W : Type 0} → State W → State W → Type 0
Later s t =
    ((a : Ptr) → SameKey (s.reqs a) (t.reqs a))
    × ((i : ℕ) (flow : MpFlow) → tracked s i flow ≤ tracked t i flow)

pub Later-refl : {W : Type 0} (s : State W) → Later s s
Later-refl s = (λ a. (refl, refl, refl), λ i flow. omega arith)

pub Later-trans : {W : Type 0} (s t u : State W) → Later s t → Later t u → Later s u
Later-trans s t u (keys, up) (keys', up') = (
  λ a. ((keys' a).0 ∙ (keys a).0, (keys' a).1 ∙ (keys a).1, (keys' a).2 ∙ (keys a).2),
  λ i flow. omega (arith, up i flow, up' i flow),
)

-- the client with a new tracked id
abbrev pub raised : Client → MpFlow → ℕ → Client
raised c flow id = record c { last_posted_tracked_id = set_flow c.last_posted_tracked_id flow id }

pub tracked-raised :
    (clients : ℕ → Client) (i : ℕ) (flow : MpFlow) (id j : ℕ) (f : MpFlow)
    → at_flow (update clients i (raised (clients i) flow id) j).last_posted_tracked_id f
      ≡ (if (j == i) && same_flow f flow then id else at_flow (clients j).last_posted_tracked_id f)
tracked-raised clients i flow id j f = elim (Bool-cases (j == i)) [
  | inl e ↦
      let p : j ≡ i = ground arith in
      rw (e, p, update_self clients i (raised (clients i) flow id))
        (at_flow-set_flow (clients i).last_posted_tracked_id flow f id)
  | inr e ↦ rw (e, update_ne clients i j (raised (clients i) flow id) (ground arith)) refl
]

module _ {W : Type 0} where
  -- One more wait, for an id above the tracked one, which becomes the tracked one.
  pub Climbing-wait :
      (s t : State W) (descs : List Desc) (i : ℕ) (flow : MpFlow) (id : ℕ)
      → Climbing s descs t
      → tracked t i flow < id
      → (j : ℕ) (f : MpFlow)
      → Climbs
          (tracked s j f)
          (wait_values j f (descs ++ wait_value32 (tracked_id i flow) id cond_geq ∷ []))
          (at_flow (update t.clients i (raised (t.clients i) flow id) j).last_posted_tracked_id f)
  Climbing-wait s t descs i flow id climbing lt j f =
      rw
        (
          wait_values-append j f descs (wait_value32 (tracked_id i flow) id cond_geq ∷ []),
          tracked-raised t.clients i flow id j f,
        )
        (elim (Bool-cases ((j == i) && same_flow f flow)) [
          | inl e ↦
              let p : j ≡ i = ground arith in
              let q : f ≡ flow = same_flow-eq f flow (ground arith) in
              rw e (
                Climbs-snoc (tracked s j f) (wait_values j f descs) (tracked t j f) id
                  (climbing j f) (rw (p, q) lt))
          | inr e ↦
              rw e
                (Climbs-nil (tracked s j f) (wait_values j f descs) (tracked t j f) (climbing j f))
        ])

  pub tracked-raised-le :
      (t : State W) (i : ℕ) (flow : MpFlow) (id : ℕ)
      → tracked t i flow < id
      → (j : ℕ) (f : MpFlow)
      → tracked t j f
        ≤ at_flow (update t.clients i (raised (t.clients i) flow id) j).last_posted_tracked_id f
  tracked-raised-le t i flow id lt j f =
      rw (tracked-raised t.clients i flow id j f)
        (elim (Bool-cases ((j == i) && same_flow f flow)) [
          | inl e ↦
              let p : j ≡ i = ground arith in
              let q : f ≡ flow = same_flow-eq f flow (ground arith) in
              let le : tracked t j f < id = rw (p, q) lt in rw e (omega arith)
          | inr e ↦ rw e (omega arith)
        ])
