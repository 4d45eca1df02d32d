-- ===== src/Tests/TrackTests.antt =====
-- The theorem on tracked ids at a concrete state.
use libmp.Base.{
  Bool, ◌||◌, ◌==◌, Bool-cases, inl, inr, ◌≡◌, refl, List, [], ◌∷◌, arith, update, true,
}
use libmp.Types.{Ptr, Wc, MpReqType, MpState, tx_flow}
use libmp.Machine.{State}
use libmp.Machine.Outcome.{Ensures}
use libmp.Progress.{complete_all}
use libmp.Progress.Caught.{Caught, InOrder, after, complete_all-Caught}
use libmp.Tests.Setup.{Script, event_mode, blank, pooled}

-- a completion of a request
abbrev completion : Ptr → Wc
completion p = record { success = true; wr_id = p }

abbrev both_done : List Wc
both_done = completion 7 ∷ completion 8 ∷ []

-- the sends 7 and 8 are in flight, with the ids 3 and 5, and the stream waits for both
abbrev two_sends : State Script
two_sends = record (pooled []) {
  brk = 9;
  reqs =
      update
        (update (pooled []).reqs 7 (record blank {
          type = MpReqType.send;
          status = MpState.pending;
          id = 3;
          trigger = true;
        }))
        8
        (record blank { type = MpReqType.send; status = MpState.pending; id = 5; trigger = true });
}

abbrev sends : Ptr → Bool
sends a = (a == 7) || (a == 8)

two_sends-Caught : Caught sends 1 tx_flow two_sends
unfolding update
two_sends-Caught a = elim (Bool-cases (a == 7)) [
  | inl e ↦ let p : a ≡ 7 = ground arith in rw p (inr (inr (omega arith)))
  | inr e ↦ elim (Bool-cases (a == 8)) [
    | inl e' ↦ let p : a ≡ 8 = ground arith in rw p (inr (inr (omega arith)))
    | inr e' ↦ inl (rw (e, e') refl)
  ]
]

seven-InOrder : InOrder sends 7 two_sends.reqs
unfolding update
seven-InOrder a = elim (Bool-cases (a == 7)) [
  | inl e ↦ inl (ground arith)
  | inr e ↦ elim (Bool-cases (a == 8)) [
    | inl e' ↦ let p : a ≡ 8 = ground arith in rw p (inr (inr (inr (omega arith))))
    | inr e' ↦ inr (inl (rw (e, e') refl))
  ]
]

eight-InOrder : InOrder sends 8 (after (completion 7) two_sends.reqs)
unfolding update
eight-InOrder a = elim (Bool-cases (a == 8)) [
  | inl e ↦ inl (ground arith)
  | inr e ↦ elim (Bool-cases (a == 7)) [
    | inl e' ↦ let p : a ≡ 7 = ground arith in rw p (inr (inr (inl refl)))
    | inr e' ↦ inr (inl (rw (e, e') refl))
  ]
]

complete_all-Caught_example :
    Ensures
      (λ _ t. Caught sends 1 tx_flow t)
      Unit
      (complete_all event_mode 1 tx_flow both_done two_sends)
complete_all-Caught_example =
    complete_all-Caught event_mode sends 1 tx_flow both_done two_sends two_sends-Caught
      (inr seven-InOrder, (inr eight-InOrder, tt))
