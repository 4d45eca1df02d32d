-- ===== src/Pool/Release.antt =====
-- `release_mp_request`, and a request that is taken and released.
use libmp.Base.{
  ◌<◌, ◌≡◌, refl, ◌≢◌, subst, sym, ap, ◌∙◌, false, List, ◌∷◌, arith, ◌==◌, ◌∉◌, update_self,
  update_ne,
}
use libmp.Types.{Ptr, null, Request, none_type, undef}
use libmp.Env.{Env}
use libmp.Machine.{State, ◌>>=◌}
use libmp.Machine.Outcome.{Returns, returns, Returns-mono, Returns-bind, Ensures-Returns}
use libmp.Machine.Heap.{cons, Chain-head, Chain-update}
use libmp.Pool.{get_request, release_mp_request}
use libmp.Pool.FreeList.{FreeList}
use libmp.Pool.Take.{get_request-FreeList}

module _ {W : Type 0} where
  -- `release_mp_request` puts a request that is not free in front of the free list.
  pub release_mp_request-FreeList :
      (s : State W) (p : Ptr) (frees : List Ptr)
      → FreeList frees s
      → p ≢ null
      → p < s.brk
      → p ∉ frees
      → Returns
          (λ _ t.
            FreeList (p ∷ frees) t
            × ((t.reqs p).type ≡ none_type)
            × ((t.reqs p).status ≡ undef)
            × ((a : Ptr) → a ≢ p → t.reqs a ≡ s.reqs a)
            × (t.clients ≡ s.clients)
            × (t.brk ≡ s.brk))
          (release_mp_request p s)
  unfolding release_mp_request
  release_mp_request-FreeList s p frees fl ne lt out =
      let e : (p == null) ≡ false = ground arith in
      rw e (
        returns (
          record {
            chain =
                cons ne (ap (λ (r : Request). r.next) (update_self s.reqs p _)) out
                  (Chain-update p _ fl.chain out);
            allocated = (lt, fl.allocated);
            positive = fl.positive;
          },
          ap (λ (r : Request). r.type) (update_self s.reqs p _),
          ap (λ (r : Request). r.status) (update_self s.reqs p _),
          λ a h. update_ne s.reqs p a _ h,
          refl,
          refl,
        ))

  -- A request that is taken off the free list and released is the first free request again.
  pub get_request-release :
      (env : Env W) (s : State W) {p : Ptr} {frees : List Ptr}
      → 0 < env.config.mp_request_limit
      → FreeList (p ∷ frees) s
      → Returns
          (λ _ t.
            FreeList (p ∷ frees) t
            × (t.free_list ≡ p)
            × ((a : Ptr) → a < s.brk → a ∉ p ∷ frees → t.reqs a ≡ s.reqs a))
          ((get_request env >>= release_mp_request) s)
  get_request-release env s {p} {frees} lim fl =
      Returns-bind (Ensures-Returns (get_request-FreeList env s (p ∷ frees) lim fl) λ (e, _). cc)
        λ q t (rest, taken, same, linked).
          let eq : p ≡ q = cc (taken.order) in
          Returns-mono
            (release_mp_request-FreeList t q rest taken.free taken.ne_null taken.allocated
              taken.out)
            λ _ u (free, _, _, others, _, _). (
              subst (λ xs. FreeList xs u) (sym taken.order) free,
              (Chain-head free.chain).0 ∙ sym eq,
              λ a lt out. others a (ground (arith, eq)) ∙ same.reqs a lt out,
            )
