-- ===== src/Posted/Prefix.antt =====
-- The loop of `progress_posted_list` in src/mp.c, by the prefix of the list that it posts.
use libmp.Base.{
  ◌≡◌, ◌≢◌, ◌⊎◌, refl, ◌∙◌, ap, sym, subst, ℕ, zero, suc, ◌<◌, ◌≤◌, true, false, List, [], ◌∷◌,
  ◌++◌, arith, ◌==◌, ltb, ◌∈◌, ◌∉◌, All, length, inl, inr, Bool-cases, has-append, Distinct,
  Distinct-length,
}
use libmp.Types.{Code, Ptr, null, Request, Flows, MpFlow, at_flow, pending, is_prepared, is_tx}
use libmp.Env.{Env}
use libmp.Machine.{State}
use libmp.Machine.Outcome.{Returns, returns, Returns-bind, Returns-mono}
use libmp.Machine.Heap.{Chain, cons, Chain-nil, Chain-head, Chain-tail}
use libmp.Posted.{posted_loop}
use libmp.Posted.Queue.{Queue}
use libmp.Posted.Loop.{Moves, Moves-trans, PostedHead, Postable, post_first-Queue}

-- The loop is right to stop at `rest`: there is none, or its first id is above `trigger`.
abbrev pub Stops : (Ptr → Request) → (trigger : ℕ) → List Ptr → Type 0
Stops h trigger [] = Unit
Stops h trigger (y ∷ ys) = trigger < (h y).id

-- What is left of the list `xs`: a prefix of it is posted.
abbrev pub Posts : {W : Type 0} → ℕ → MpFlow → ℕ → State W → List Ptr → Code → State W → Type 0
Posts client flow trigger s xs code t = (posted : List Ptr) × (rest : List Ptr) × record {
  order : xs ≡ posted ++ rest;
  queue : Queue client flow rest t;
  ids : All (λ a. (s.reqs a).id ≤ trigger) posted;
  pending : All (λ a. (t.reqs a).status ≡ pending) posted;
  others : (a : Ptr) → a ∉ posted → (t.reqs a).status ≡ (s.reqs a).status;
  fields : (a : Ptr) → Moves (s.reqs a) (t.reqs a);
  stop : (code ≢ 0) ⊎ Stops s.reqs trigger rest;
}

pub All-map :
    {P Q : Ptr → Type 0} (xs : List Ptr) → All P xs → ((a : Ptr) → a ∈ xs → P a → Q a) → All Q xs
All-map [] all f = tt
All-map (x ∷ xs) (p, all) f = (f x (ground arith) p, All-map xs all λ a i. f a (ground arith))

Stops-id :
    (trigger : ℕ) (rest : List Ptr) (h g : Ptr → Request)
    → ((a : Ptr) → (h a).id ≡ (g a).id)
    → Stops h trigger rest
    → Stops g trigger rest
Stops-id trigger [] h g id stop = tt
Stops-id trigger (y ∷ ys) h g id stop = subst (λ n. trigger < n) (id y) stop

-- A posted request stays out of the way of the others.
Postable-later :
    {W : Type 0} (x : Ptr) (xs : List Ptr) (s u : State W)
    → x ∉ xs
    → PostedHead x s u
    → All (Postable s.reqs) xs
    → All (Postable u.reqs) xs
Postable-later x xs s u out (pend, others, fields) all = All-map xs all λ a i (ready, tx). (
  subst (λ state. is_prepared state ≡ true) (sym (others a (ground arith))) ready,
  subst (λ type. is_tx type ≡ true) (sym (ap (λ (r : Request). r.type) (fields a))) tx,
)

module _ {W : Type 0} (env : Env W) (client : ℕ) (flow : MpFlow) where
  nothing :
      (trigger : ℕ) (xs : List Ptr) (code : Code) (s t : State W)
      → t.reqs ≡ s.reqs
      → Queue client flow xs t
      → (code ≢ 0) ⊎ Stops s.reqs trigger xs
      → Posts client flow trigger s xs code t
  nothing trigger xs code s t same q stop = (
    [],
    xs,
    record {
      order = refl;
      queue = q;
      ids = tt;
      pending = tt;
      others = λ a out. ap (λ (h : Ptr → Request). (h a).status) same;
      fields = λ a. subst (λ (h : Ptr → Request). Moves (s.reqs a) (h a)) (sym same) refl;
      stop = stop;
    },
  )

  -- one request more in front
  one_more :
      (trigger : ℕ) (x : Ptr) (xs : List Ptr) (code : Code) (s u t : State W)
      → x ∉ xs
      → (s.reqs x).id ≤ trigger
      → PostedHead x s u
      → Posts client flow trigger u xs code t
      → Posts client flow trigger s (x ∷ xs) code t
  one_more trigger x xs code s u t out le (pend, others, fields) (posted, rest, p) =
      let id : (a : Ptr) → (u.reqs a).id ≡ (s.reqs a).id =
        λ a. ap (λ (r : Request). r.id) (fields a) in
      let outside : x ∉ posted ++ rest = subst (λ ys. x ∉ ys) p.order out in
      let apart : x ∉ posted = ground (arith, has-append x posted rest) in
      (
        x ∷ posted,
        rest,
        record {
          order = ap (λ ys. x ∷ ys) p.order;
          queue = p.queue;
          ids = (le, All-map posted p.ids λ a i h. subst (λ n. n ≤ trigger) (id a) h);
          pending = (p.others x apart ∙ pend, p.pending);
          others = λ a o. p.others a (ground arith) ∙ others a (ground arith);
          fields = λ a. Moves-trans (s.reqs a) (u.reqs a) (t.reqs a) (fields a) (p.fields a);
          stop = elim p.stop [
            | inl bad ↦ inl bad
            | inr good ↦ inr (Stops-id trigger rest u.reqs s.reqs id good)
          ];
        },
      )

  posted_loop-at :
      (fuel trigger : ℕ) (xs : List Ptr) (s : State W)
      → length xs < fuel
      → at_flow (s.clients client).last_trigger_id flow ≡ trigger
      → Queue client flow xs s
      → All (Postable s.reqs) xs
      → Returns
          (λ code t. Posts client flow trigger s xs code t)
          (posted_loop env fuel client flow s)
  unfolding posted_loop
  posted_loop-at zero trigger xs s lt at q ready = absurd (omega arith)
  posted_loop-at (suc fuel) trigger [] s lt at q ready =
      let e : (at_flow (s.clients client).posted_stream_req flow == null) ≡ true =
        rw (Chain-nil q.chain) refl in
      rw e (returns (nothing trigger [] 0 s s refl q (inr tt)))
  posted_loop-at (suc fuel) trigger (x ∷ xs) s lt at q (r, ready) =
      let (head, nz) = Chain-head q.chain in
      let (c, out) = Chain-tail q.chain in
      let ne : (x == null) ≡ false = ground (arith, head, nz) in
      elim (Bool-cases (ltb trigger (s.reqs x).id)) [
        | inl later ↦
            rw (head, ne, ne, at, later)
              (returns (nothing trigger (x ∷ xs) 0 s s refl q (inr (ground arith))))
        | inr due ↦
            rw (head, ne, ne, at, due)
              (Returns-bind (post_first-Queue env client flow x xs s q r) λ code u (same, either).
                elim either [
                  | inl (z, q', p) ↦ rw z (
                      Returns-mono
                        (posted_loop-at fuel trigger xs u (omega arith)
                          (ap (λ (ids : Flows ℕ). at_flow ids flow) same ∙ at) q'
                          (Postable-later x xs s u out p ready))
                        λ code' t posts.
                          one_more trigger x xs code' s u t out (ground arith) p posts)
                  | inr (bad, q', reqs) ↦
                      let e : (code == 0) ≡ false = ground arith in
                      rw e (returns (nothing trigger (x ∷ xs) code s u reqs q' (inl bad)))
                ])
      ]

-- The addresses on a chain are distinct, and NULL is not among them.
pub Chain-Distinct :
    {h : Ptr → Request} {p : Ptr} (xs : List Ptr) → Chain h p xs → Distinct xs × (null ∉ xs)
Chain-Distinct [] c = (tt, refl)
Chain-Distinct (x ∷ xs) (cons ne e out c) =
    let (d, z) = Chain-Distinct xs c in ((out, d), ground arith)

-- On a client's posted list of prepared transmit requests, all allocated, the loop of
-- progress_posted_list with as many rounds as there are addresses returns. It has posted a prefix of
-- the list, all of whose ids are at most the trigger id that the stream has reached: these requests
-- are pending, the rest is the posted list, and nothing else of any request changes but links. If
-- the code is 0, the rest is empty or starts with an id above the trigger.
pub posted_loop-Posts :
    {W : Type 0} (env : Env W) (client : ℕ) (flow : MpFlow) (xs : List Ptr) (s : State W)
    → 0 < s.brk
    → Queue client flow xs s
    → All (λ a. a < s.brk) xs
    → All (Postable s.reqs) xs
    → Returns
        (λ code t. Posts client flow (at_flow (s.clients client).last_trigger_id flow) s xs code t)
        (posted_loop env s.brk client flow s)
posted_loop-Posts env client flow xs s pos q below ready =
    let (d, z) = Chain-Distinct xs q.chain in
    posted_loop-at env client flow s.brk (at_flow (s.clients client).last_trigger_id flow) xs s
      (omega (arith, Distinct-length s.brk (null ∷ xs) (z, d) (pos, below))) refl q ready
