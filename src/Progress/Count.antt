-- ===== src/Progress/Count.antt =====
-- The count that `mp_progress_all` of src/mp.c returns.
use libmp.Base.{
  ℕ, ◌+◌, ◌<◌, ◌≤◌, ◌≡◌, refl, ◌∙◌, ap, sym, subst, true, false, List, [], ◌∷◌, arith, ◌==◌,
  if◌then◌else◌, Bool-cases, ◌⊎◌, inl, inr,
}
use libmp.Types.{Ptr, null, Request, Client, at_flow, is_complete}
use libmp.Env.{Env}
use libmp.Machine.{State}
use libmp.Machine.Commands.{branch}
use libmp.Machine.Outcome.{Ensures, done, faults, Ensures-bind, Ensures-mono}
use libmp.Progress.{progress_all_loop, mp_progress_all}
use libmp.Progress.Engine.{
  Evolves, same, finishes, NoWaited, Progressed, ProgressCode, progress_flows-Progressed,
}

-- the number of complete requests among `reqs`
abbrev pub complete_count : (Ptr → Request) → List Ptr → ℕ
complete_count h [] = 0
complete_count h (p ∷ reqs) = (if is_complete (h p).status then 1 else 0) + complete_count h reqs

-- A complete request stays complete.
abbrev pub StayComplete : (h g : Ptr → Request) → Type 0
StayComplete h g = (a : Ptr) → is_complete (h a).status ≡ true → is_complete (g a).status ≡ true

Evolves-complete :
    {q r : Request} → Evolves q r → is_complete q.status ≡ true → is_complete r.status ≡ true
Evolves-complete same e = e
Evolves-complete (finishes f) e = refl

complete_count_mono :
    (h g : Ptr → Request) (reqs : List Ptr)
    → StayComplete h g
    → complete_count h reqs ≤ complete_count g reqs
complete_count_mono h g [] stay = omega arith
complete_count_mono h g (p ∷ reqs) stay = elim (Bool-cases (is_complete (h p).status)) [
  | inl e ↦ rw (e, stay p e) (omega (arith, complete_count_mono h g reqs stay))
  | inr e ↦ elim (Bool-cases (is_complete (g p).status)) [
    | inl e' ↦ rw (e, e') (omega (arith, complete_count_mono h g reqs stay))
    | inr e' ↦ rw (e, e') (omega (arith, complete_count_mono h g reqs stay))
  ]
]

Progressed-NoWaited : {W : Type 0} (s t : State W) → NoWaited s → Progressed s t → NoWaited t
Progressed-NoWaited s t none_waited p i flow =
    ap (λ (c : Client). at_flow c.waited_stream_req flow) (p.clients i) ∙ none_waited i flow

-- The result lies between the complete requests before and after, or is the code `MP_FAILURE`.
abbrev pub Counts : {W : Type 0} → List Ptr → (before : ℕ) → State W → ℕ → State W → Type 0
Counts reqs before s ret t =
    StayComplete s.reqs t.reqs
    × (((before + complete_count s.reqs reqs ≤ ret) × (ret ≤ before + complete_count t.reqs reqs))
        ⊎ (ret ≡ 1))

failed : (code : ℕ) → ProgressCode code → code == 0 ≡ false → code ≡ 1
failed code (inl e) ne = absurd (ground arith)
failed code (inr e) ne = e

module _ {W : Type 0} (env : Env W) (no_events : env.config.use_event_sync ≡ false) where
  -- one request in front that is complete at the end
  counted :
      (p : Ptr) (reqs : List Ptr) (before ret : ℕ) (s v u : State W)
      → StayComplete s.reqs v.reqs
      → is_complete (v.reqs p).status ≡ true
      → Counts reqs (before + 1) v ret u
      → Counts (p ∷ reqs) before s ret u
  counted p reqs before ret s v u stay full (stay', either) = (
    λ a e. stay' a (stay a e),
    elim either [
      | inr one ↦ inr one
      | inl (low, high) ↦
          let e : is_complete (u.reqs p).status ≡ true = stay' p full in
          let mono : complete_count s.reqs reqs ≤ complete_count v.reqs reqs =
            complete_count_mono s.reqs v.reqs reqs stay in
          inl (
            elim (Bool-cases (is_complete (s.reqs p).status)) [
              | inl f ↦ rw f (omega arith)
              | inr f ↦ rw f (omega arith)
            ],
            rw e (omega arith),
          )
    ],
  )

  -- one request in front that was not complete when it was looked at
  passed :
      (p : Ptr) (reqs : List Ptr) (before ret : ℕ) (s v u : State W)
      → StayComplete s.reqs v.reqs
      → is_complete (s.reqs p).status ≡ false
      → Counts reqs before v ret u
      → Counts (p ∷ reqs) before s ret u
  passed p reqs before ret s v u stay part (stay', either) = (
    λ a e. stay' a (stay a e),
    elim either [
      | inr one ↦ inr one
      | inl (low, high) ↦
          let mono : complete_count s.reqs reqs ≤ complete_count v.reqs reqs =
            complete_count_mono s.reqs v.reqs reqs stay in
          inl (
            rw part (omega arith),
            elim (Bool-cases (is_complete (u.reqs p).status)) [
              | inl f ↦ rw f (omega arith)
              | inr f ↦ rw f (omega arith)
            ],
          )
    ],
  )

  progress_all_loop-Counts :
      (reqs : List Ptr) (before : ℕ) (s : State W)
      → NoWaited s
      → 0 < s.brk
      → Ensures (λ ret t. Counts reqs before s ret t) Unit (progress_all_loop env reqs before s)
  unfolding progress_all_loop
  progress_all_loop-Counts [] before s none_waited pos =
      done (λ a e. e, inl (omega arith, omega arith))
  progress_all_loop-Counts (p ∷ reqs) before s none_waited pos = elim (Bool-cases (p == null)) [
    | inl e ↦ rw e (faults tt)
    | inr ne ↦ rw ne (
        branch (λ ret t. Counts (p ∷ reqs) before s ret t) (is_complete (s.reqs p).status) _ _ s
          (λ full.
            Ensures-mono (progress_all_loop-Counts reqs (before + 1) s none_waited pos) (λ f. f)
              λ ret u c. counted p reqs before ret s s u (λ a e. e) full c)
          (λ part.
            Ensures-bind (progress_flows-Progressed env s no_events none_waited pos) (λ f. f)
              λ code v (either, q).
                let stay : StayComplete s.reqs v.reqs = λ a. Evolves-complete (q.reqs a) in
                let none_waited' = Progressed-NoWaited s v none_waited q in
                let pos' : 0 < v.brk = subst (λ b. 0 < b) (sym q.pool.0) pos in
                branch (λ ret t. Counts (p ∷ reqs) before s ret t) (code == 0) _ _ v
                  (λ e. rw ne (elim (Bool-cases (is_complete (v.reqs p).status)) [
                    | inl f ↦ rw f (
                        Ensures-mono
                          (progress_all_loop-Counts reqs (before + 1) v none_waited' pos') (λ f. f)
                          λ ret u c. counted p reqs before ret s v u stay f c)
                    | inr f ↦ rw f (
                        Ensures-mono (progress_all_loop-Counts reqs before v none_waited' pos')
                          (λ f. f) λ ret u c. passed p reqs before ret s v u stay part c)
                  ]))
                  (λ e. done (stay, inr (failed code either e)))))
  ]

  -- Outside the event-synchronous mode, with no waited request tracked and at least one address
  -- used, mp_progress_all returns or faults. What it returns is the code MP_FAILURE, 1, or a count
  -- that is at least the number of the given requests that were complete before and at most the
  -- number of those that are complete after it; no complete request is left incomplete.
  pub mp_progress_all-Counts :
      (reqs : List Ptr) (s : State W)
      → NoWaited s
      → 0 < s.brk
      → Ensures (λ ret t. Counts reqs 0 s ret t) Unit (mp_progress_all env reqs s)
  unfolding mp_progress_all
  mp_progress_all-Counts reqs s none_waited pos = progress_all_loop-Counts reqs 0 s none_waited pos
