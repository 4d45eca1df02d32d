-- ===== src/Posted/Queue.antt =====
-- The list of posted requests of a client as a queue: `client_track_posted_stream_req` of
-- src/mp_peersync.c appends to it.
use libmp.Base.{
  ◌≡◌, refl, ◌≢◌, ◌∙◌, sym, ℕ, true, false, List, [], ◌∷◌, ◌++◌, arith, ◌==◌, ◌∈◌, ◌∉◌, update_self,
}
use libmp.Types.{Ptr, null, Flows, MpFlow, tx_flow, rx_flow, at_flow, set_flow}
use libmp.Machine.{State}
use libmp.Machine.Outcome.{Returns, returns}
use libmp.Machine.Heap.{Chain, nil, cons, Chain-nil, Chain-head}
use libmp.Posted.{append_req, client_track_posted_stream_req}
use libmp.Posted.Links.{
  SameRequest, linked, linked-next, linked-prev, linked-same, last_of-snoc, last_of, Links,
  last_of-In, Links-snoc, Chain-snoc, Chain-ne,
}

-- The posted list of the client is `xs`: linked forward and backward, with its last request.
abbrev pub Queue : {W : Type 0} → ℕ → MpFlow → List Ptr → State W → Type 0
Queue client flow xs s = record {
  chain : Chain s.reqs (at_flow (s.clients client).posted_stream_req flow) xs;
  links : Links s.reqs null xs;
  last : at_flow (s.clients client).last_posted_stream_req flow ≡ last_of null xs;
}

-- `t` has the requests of `s` but for their links.
abbrev pub SameButLinks : {W : Type 0} → State W → State W → Type 0
SameButLinks s t = (a : Ptr) → SameRequest (s.reqs a) (t.reqs a)

pub at-set : (ps : Flows Ptr) (flow : MpFlow) (p : Ptr) → at_flow (set_flow ps flow p) flow ≡ p
at-set ps tx_flow p = refl
at-set ps rx_flow p = refl

module _ {W : Type 0} where
  track-empty :
      (client : ℕ) (flow : MpFlow) (p : Ptr) (s : State W)
      → Queue client flow [] s
      → p ≢ null
      → (s.reqs p).next ≡ null
      → (s.reqs p).prev ≡ null
      → Returns
          (λ _ t. Queue client flow (p ∷ []) t × SameButLinks s t)
          (client_track_posted_stream_req client p flow s)
  unfolding client_track_posted_stream_req
  track-empty client flow p s q ne next prev =
      let e : (at_flow (s.clients client).posted_stream_req flow == null) ≡ true =
        rw (Chain-nil q.chain) refl in
      let e' : (at_flow (s.clients client).last_posted_stream_req flow == null) ≡ true =
        rw (q.last) refl in
      rw (e, e')
        (returns (
          simp (update_self, at-set)
              (record { chain = cons ne next (ground arith) nil; links = (prev, tt); last = refl }),
          λ a. refl,
        ))

  track-more :
      (client : ℕ) (flow : MpFlow) (p x : Ptr) (xs : List Ptr) (s : State W)
      → Queue client flow (x ∷ xs) s
      → p ≢ null
      → p ∉ x ∷ xs
      → (s.reqs p).next ≡ null
      → Returns
          (λ _ t. Queue client flow (x ∷ xs ++ p ∷ []) t × SameButLinks s t)
          (client_track_posted_stream_req client p flow s)
  unfolding client_track_posted_stream_req append_req
  track-more client flow p x xs s q ne out next =
      let last : Ptr = last_of x xs in
      let inside : last ∈ x ∷ xs = last_of-In x xs in
      let head : (at_flow (s.clients client).posted_stream_req flow == null) ≡ false =
        ground (arith, Chain-head q.chain) in
      let end : (last == null) ≡ false = ground (arith, Chain-ne (x ∷ xs) q.chain last inside) in
      let e : (p == null) ≡ false = ground arith in
      let other : p ≢ last = ground (arith, inside) in
      let (to_p, next_same) = linked-next s.reqs last p other in
      let (to_last, prev_same) = linked-prev s.reqs last p in
      let unlinked : (linked s.reqs last p p).next ≡ null = next_same p other ∙ next in
      let e' : ((linked s.reqs last p p).next == null) ≡ true = rw unlinked refl in
      rw (head, q.last, end, e, e, e')
        (returns (
          simp (update_self, at-set)
              (record {
                chain =
                    Chain-snoc s.reqs (linked s.reqs last p) x p xs q.chain out ne unlinked to_p
                      λ a i. next_same a;
                links =
                    Links-snoc s.reqs (linked s.reqs last p) null p (x ∷ xs) q.links
                      (λ a i. prev_same a (ground arith)) to_last;
                last = sym (last_of-snoc null p (x ∷ xs));
              }),
          linked-same s.reqs last p,
        ))

  -- On a client's posted list, client_track_posted_stream_req appends a request that is not on it
  -- and not linked: it returns, the list has the request at its end, and nothing of any request
  -- changes but links.
  pub client_track_posted_stream_req-Queue :
      (client : ℕ) (flow : MpFlow) (p : Ptr) (xs : List Ptr) (s : State W)
      → Queue client flow xs s
      → p ≢ null
      → p ∉ xs
      → (s.reqs p).next ≡ null
      → (s.reqs p).prev ≡ null
      → Returns
          (λ _ t. Queue client flow (xs ++ p ∷ []) t × SameButLinks s t)
          (client_track_posted_stream_req client p flow s)
  client_track_posted_stream_req-Queue client flow p [] s q ne out next prev =
      track-empty client flow p s q ne next prev
  client_track_posted_stream_req-Queue client flow p (x ∷ xs) s q ne out next prev =
      track-more client flow p x xs s q ne out next
