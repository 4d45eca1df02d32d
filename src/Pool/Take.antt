-- ===== src/Pool/Take.antt =====
-- `get_request` of src/mp.c on the free list.
use libmp.Base.{
  ◌<◌, ◌≡◌, refl, ◌≢◌, subst, sym, ap, ◌∙◌, length, false, List, [], ◌∷◌, arith, ◌==◌, ◌∉◌,
  update_self, update_ne,
}
use libmp.Types.{Ptr, null, Request}
use libmp.Env.{Env}
use libmp.Machine.{State}
use libmp.Machine.Outcome.{Returns, returns, Ensures, Ensures-bind, Returns-mono, Returns-Ensures}
use libmp.Machine.Heap.{Chain, Chain-head, Chain-tail, Chain-update}
use libmp.Pool.{pop_free, get_request}
use libmp.Pool.Region.{addresses-below, length-addresses}
use libmp.Pool.FreeList.{FreeList, SameOthers, refilled, PoolFails, Taken}
use libmp.Pool.Refill.{limit, refill-FreeList}

module _ {W : Type 0} (env : Env W) where
  open env use {config}

  -- The head of the free list comes off it, with its links cleared.
  pop_free-FreeList :
      (s : State W) {p : Ptr} {frees : List Ptr}
      → FreeList (p ∷ frees) s
      → Returns
          (λ q t.
            (q ≡ p)
            × FreeList frees t
            × SameOthers (p ∷ frees) s t
            × (t.reqs p ≡ record (s.reqs p) { next = null; prev = null })
            × (p ≢ null)
            × (p < s.brk)
            × (p ∉ frees))
          (pop_free s)
  unfolding pop_free
  pop_free-FreeList s {p} {frees} fl =
      let (e, ne) = Chain-head fl.chain in
      let (c, out) = Chain-tail fl.chain in
      let e' : (s.free_list == null) ≡ false = ground arith in
      rw (e', e')
        (returns (
          e,
          record {
            chain =
                Chain-update s.free_list _
                  (subst (λ a. Chain s.reqs (s.reqs a).next frees) (sym e) c) (rw e out);
            allocated = fl.allocated.1;
            positive = fl.positive;
          },
          record {
            reqs = λ a lt o. update_ne s.reqs s.free_list a _ (rw e (ground arith));
            clients = refl;
            grows = omega arith;
          },
          rw (← e) (update_self s.reqs s.free_list _),
          rw (← e) ne,
          fl.allocated.0,
          out,
        ))

  pop_refilled :
      (s t : State W) (frees all : List Ptr)
      → 0 < length all
      → FreeList all t
      → SameOthers frees s t
      → ((a : Ptr) → a < s.brk → a ∉ frees → a ∉ all)
      → Returns
          (λ p u.
            (rest : List Ptr) × Taken all p rest u
            × SameOthers frees s u
            × ((u.reqs p).next ≡ null))
          (pop_free t)
  pop_refilled s t frees [] pos fl same apart = absurd (omega arith)
  pop_refilled s t frees (q ∷ rest) pos fl same apart =
      Returns-mono (pop_free-FreeList t fl) λ p u (e, free, others, fields, ne, lt, out). (
        rest,
        record {
          order = ap (λ a. a ∷ rest) (sym e);
          free = free;
          ne_null = rw e ne;
          allocated = rw e (omega arith);
          out = rw e out;
        },
        record {
          reqs = λ a below o. others.reqs a (omega arith) (apart a below o) ∙ same.reqs a below o;
          clients = others.clients ∙ same.clients;
          grows = omega arith;
        },
        rw e (ap (λ (r : Request). r.next) fields),
      )

  refilled-pos :
      (brk : Ptr) (frees : List Ptr) → 0 < limit env → 0 < length (refilled (limit env) brk frees)
  refilled-pos brk [] lim = omega (arith, length-addresses (limit env) brk)
  refilled-pos brk (p ∷ frees) lim = omega arith

  refilled-apart :
      (brk : Ptr) (frees : List Ptr) (a : Ptr)
      → a < brk
      → a ∉ frees
      → a ∉ refilled (limit env) brk frees
  refilled-apart brk [] a lt out = addresses-below (limit env) brk a lt
  refilled-apart brk (p ∷ frees) a lt out = out

  -- `get_request` takes the first free request, after a refill if there was none.
  pub get_request-FreeList :
      (s : State W) (frees : List Ptr)
      → 0 < config.mp_request_limit
      → FreeList frees s
      → Ensures
          (λ p t.
            (rest : List Ptr) × Taken (refilled config.mp_request_limit s.brk frees) p rest t
            × SameOthers frees s t
            × ((t.reqs p).next ≡ null))
          (PoolFails env frees s)
          (get_request env s)
  unfolding get_request
  get_request-FreeList s frees lim fl =
      Ensures-bind (refill-FreeList env s frees lim fl) (λ f. f)
        λ _ t (free, same). Returns-Ensures (
          pop_refilled s t frees (refilled config.mp_request_limit s.brk frees)
            (refilled-pos s.brk frees lim) free same (refilled-apart s.brk frees))
