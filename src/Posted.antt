-- ===== src/Posted.antt =====
-- The list of prepared requests that wait for the stream's trigger: `client_track_posted_stream_req`
-- and `client_track_waited_stream_req` of src/mp_peersync.c, which append to such a list, and
-- `progress_posted_list` of src/mp.c, which posts from its front.
pub mod Links
pub mod Queue
pub mod Delink
pub mod Loop
pub mod Prefix
use libmp.Base.{ℕ, zero, suc, ◌==◌, ltb, if◌then◌else◌}
use libmp.Types.{Code, Ptr, null, Request, MpState, MpFlow, at_flow, set_flow, is_prepared, is_tx}
use libmp.Env.{Env}
use libmp.Machine.{
  out_of_fuel, M, pure, ◌>>=◌, ◌>>◌, assert, gets, call, load, modify, client_at, modify_client,
  for_clients,
}

-- `x` where it was `p`, and else what it was
abbrev pub move_from : Ptr → Ptr → Ptr → Ptr
move_from p x y = if y == p then x else y

module _ {W : Type 0} where
  -- append `p` to the list with head `head` and last request `last`: the links
  unfoldable pub append_req : (last p : Ptr) → M W (Unit {0})
  append_req last p = do
    modify last (λ r. record r { next = p })
    modify p (λ r. record r { prev = last })
    r ← load p
    assert (r.next == null)

  unfoldable pub client_track_posted_stream_req : (client : ℕ) → Ptr → MpFlow → M W (Unit {0})
  client_track_posted_stream_req client p flow = do
    c ← client_at client
    if at_flow c.posted_stream_req flow == null
        then (do
          assert (at_flow c.last_posted_stream_req flow == null)
          modify_client client (λ d. record d {
            posted_stream_req = set_flow d.posted_stream_req flow p;
            last_posted_stream_req = set_flow d.last_posted_stream_req flow p;
          }))
        else (do
          append_req (at_flow c.last_posted_stream_req flow) p
          modify_client client
              (λ d. record d { last_posted_stream_req = set_flow d.last_posted_stream_req flow p }))

  unfoldable pub client_track_waited_stream_req : (client : ℕ) → Ptr → MpFlow → M W (Unit {0})
  client_track_waited_stream_req client p flow = do
    c ← client_at client
    if at_flow c.waited_stream_req flow == null
        then (do
          assert (at_flow c.last_waited_stream_req flow == null)
          modify_client client (λ d. record d {
            waited_stream_req = set_flow d.waited_stream_req flow p;
            last_waited_stream_req = set_flow d.last_waited_stream_req flow p;
          }))
        else (do
          append_req (at_flow c.last_waited_stream_req flow) p
          modify_client client
              (λ d. record d { last_waited_stream_req = set_flow d.last_waited_stream_req flow p }))

  -- a write through a link that is not `NULL`
  abbrev pub when_some : Ptr → (Request → Request) → M W (Unit {0})
  when_some p f = if p == null then pure tt else modify p f

  -- delink the request, adjust head and tail, clear its links
  unfoldable pub delink : (client : ℕ) → MpFlow → Ptr → M W (Unit {0})
  delink client flow p = do
    r ← load p
    when_some r.next (λ n. record n { prev = r.prev })
    when_some r.prev (λ n. record n { next = r.next })
    modify_client client (λ c. record c {
      posted_stream_req =
          set_flow c.posted_stream_req flow (move_from p r.next (at_flow c.posted_stream_req flow));
      last_posted_stream_req =
          set_flow c.last_posted_stream_req flow
            (move_from p r.prev (at_flow c.last_posted_stream_req flow));
    })
    modify p (λ q. record q { prev = null; next = null })

module _ {W : Type 0} (env : Env W) where
  -- the body of the loop, on the first request
  unfoldable pub post_first : (client : ℕ) → MpFlow → Ptr → M W Code
  post_first client flow p = do
    r ← load p
    assert (is_prepared r.status)
    assert (is_tx r.type)
    ret ← call (env.gds_post_send client r.sr)
    if ret == 0
        then (do
          modify p (λ q. record q { status = MpState.pending })
          delink client flow p
          pure 0)
        else pure ret

  unfoldable pub posted_loop : (fuel client : ℕ) → MpFlow → M W Code
  posted_loop zero client flow = λ _. out_of_fuel
  posted_loop (suc fuel) client flow = do
    c ← client_at client
    let p = at_flow c.posted_stream_req flow
    if p == null then pure 0 else do
      r ← load p
      if ltb (at_flow c.last_trigger_id flow) r.id then pure 0 else do
        ret ← post_first client flow p
        if ret == 0 then posted_loop fuel client flow else pure ret

  -- A list of distinct allocated requests has fewer than `brk` of them, and each round takes one.
  unfoldable pub progress_posted_list : MpFlow → M W Code
  progress_posted_list flow =
      if env.config.use_event_sync
      then (do
        fuel ← gets (λ s. s.brk)
        for_clients env.config.client_count 0 (λ i. posted_loop fuel i flow))
      else pure 0
