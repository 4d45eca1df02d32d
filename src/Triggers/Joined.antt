-- ===== src/Triggers/Joined.antt =====
-- The posted list behind a whole batch of src/mp_peersync.c.
use libmp.Base.{
  ℕ, ◌≡◌, ◌≢◌, refl, ◌∙◌, ap, sym, subst, Bool, true, List, [], ◌∷◌, ◌++◌, All, arith, ◌==◌, ◌∉◌,
  has-append, Bool-cases, ◌⊎◌, inl, inr, some,
}
use mathlib.Core.List.{append-nil, append_assoc}
use libmp.Types.{Code, Ptr, null, Request, tx_flow, Desc, is_tx}
use libmp.Env.{Env}
use libmp.Machine.{State}
use libmp.Machine.Outcome.{
  Returns, returns, Returns-bind, Returns-Ensures, Returns-and, Returns-mono,
}
use libmp.Stream.{collect, post_prepared}
use libmp.Triggers.{trigger_values}
use libmp.Triggers.Ordered.{ids, ids-same, OrderedQueue, Joins, post_prepared-Joins}
use libmp.Triggers.Released.{Keys, Adds, post_prepared-Adds}

-- The requests are distinct, and not in `xs`.
abbrev pub Apart : (xs reqs : List Ptr) → Type 0
Apart xs [] = Unit
Apart xs (p ∷ reqs) = (p ∉ xs) × Apart (xs ++ p ∷ []) reqs

module _ {W : Type 0} (env : Env W) (i : ℕ) where
  -- a transmit request of client `i` that is on no list
  abbrev pub Joinable : (Ptr → Request) → Ptr → Type 0
  Joinable h p =
      (env.config.client_index (h p).peer ≡ some i)
      × (is_tx (h p).type ≡ true)
      × (p ≢ null)
      × ((h p).next ≡ null)
      × ((h p).prev ≡ null)

  Joinable-later :
      (h g : Ptr → Request) (ys reqs : List Ptr)
      → Apart ys reqs
      → ((a : Ptr) → a ∉ ys → g a ≡ h a)
      → All (Joinable h) reqs
      → All (Joinable g) reqs
  Joinable-later h g ys [] apart same all = tt
  Joinable-later h g ys (q ∷ reqs) (out, apart) same (one, all) = (
    rw (same q out) one,
    Joinable-later h g (ys ++ q ∷ []) reqs apart
        (λ a far. same a (ground (arith, has-append a ys (q ∷ []), far))) all,
  )

Keys-trans : (q r t : Request) → Keys q r → Keys r t → Keys q t
Keys-trans q r t (a, b, c, d) (a', b', c', d') = (a' ∙ a, b' ∙ b, c' ∙ c, d' ∙ d)

module _ {W : Type 0} (env : Env W) (i low : ℕ) where
  -- What the loop leaves: all requests on the list, in order, and their ids in the batch.
  abbrev pub Joined : (xs reqs : List Ptr) → List Desc → State W → List Desc → State W → Type 0
  Joined xs reqs descs s descs' t = record {
    queue : OrderedQueue i low (xs ++ reqs) t;
    keys : (a : Ptr) → Keys (s.reqs a) (t.reqs a);
    values : trigger_values i tx_flow descs' ≡ trigger_values i tx_flow descs ++ ids s.reqs reqs;
    brk : t.brk ≡ s.brk;
  }

  Joined-step :
      (p : Ptr) (xs reqs : List Ptr) (descs descs1 descs2 : List Desc) (s t u : State W)
      → Adds i p xs descs s descs1 t
      → Joined (xs ++ p ∷ []) reqs descs1 t descs2 u
      → Joined xs (p ∷ reqs) descs s descs2 u
  Joined-step p xs reqs descs descs1 descs2 s t u adds j = record {
    queue = subst (λ ys. OrderedQueue i low ys u) (append_assoc xs (p ∷ []) reqs) j.queue;
    keys = λ a. Keys-trans (s.reqs a) (t.reqs a) (u.reqs a) (adds.keys a) (j.keys a);
    values =
        j.values
        ∙ ap (λ values. values ++ ids t.reqs reqs) adds.values
        ∙ append_assoc (trigger_values i tx_flow descs) ((s.reqs p).id ∷ []) (ids t.reqs reqs)
        ∙ ap (λ l. trigger_values i tx_flow descs ++ ((s.reqs p).id ∷ l))
            (ids-same s.reqs t.reqs reqs λ a. (adds.keys a).2);
    brk = j.brk ∙ adds.brk;
  }

  succeeded :
      (p : Ptr) (xs : List Ptr) (descs : List Desc) (ret : Code) (descs' : List Desc)
      (s t : State W)
      → ret ≡ 0
      → Joins env i low p xs ret t
      → (ret ≢ 0) ⊎ Adds i p xs descs s descs' t
      → OrderedQueue i low (xs ++ p ∷ []) t × Adds i p xs descs s descs' t
  succeeded p xs descs ret descs' s t good joins (inl bad) = absurd (bad good)
  succeeded p xs descs ret descs' s t good (inr (bad, q)) (inr adds) = absurd (bad good)
  succeeded p xs descs ret descs' s t good (inl q) (inr adds) = (q, adds)

  pub collect-Joined :
      (block : Bool) (reqs xs : List Ptr) (descs : List Desc) (s : State W)
      → OrderedQueue i low xs s
      → Apart xs reqs
      → All (Joinable env i s.reqs) reqs
      → Returns
          (λ batch t. (batch.0 ≢ 0) ⊎ Joined xs reqs descs s batch.1 t)
          (collect (post_prepared env block) reqs descs s)
  unfolding collect
  collect-Joined block [] xs descs s q apart all = returns (
      inr (record {
        queue = subst (λ ys. OrderedQueue i low ys s) (sym (append-nil xs)) q;
        keys = λ a. (refl, refl, refl, refl);
        values = sym (append-nil (trigger_values i tx_flow descs));
        brk = refl;
      }))
  collect-Joined block (p ∷ reqs) xs descs s q (out, apart) ((at, tx, ne, next, prev), all) =
      Returns-bind
        (Returns-and (post_prepared-Joins env i low block p xs descs s q at tx ne out next prev) (
          Returns-Ensures {F = Unit}
            (post_prepared-Adds env i low block p xs descs s q at tx ne out next prev)))
        λ (ret, descs') t (joins, either). elim (Bool-cases (ret == 0)) [
          | inr e ↦ rw e (returns (inl (ground arith)))
          | inl e ↦
              let (q', adds) = succeeded p xs descs ret descs' s t (ground arith) joins either in
              rw e (
                Returns-mono
                  (collect-Joined block reqs (xs ++ p ∷ []) descs' t q' apart (
                    Joinable-later env i s.reqs t.reqs (xs ++ p ∷ []) reqs apart
                      (λ a far.
                        adds.untouched a (ground (arith, has-append a xs (p ∷ []), far))
                          (ground (arith, has-append a xs (p ∷ []), far)))
                      all))
                  λ after u last. elim last [
                    | inl bad ↦ inl bad
                    | inr j ↦ inr (Joined-step p xs reqs descs descs' after.1 s t u adds j)
                  ])
        ]
