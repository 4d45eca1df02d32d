-- ===== src/Comm/Protocol.antt =====
-- The handshake of src/comm_library/comm.cpp between a rank that announces and a rank that waits, as
-- the steps of both and of the network. The announcing rank is at the place of the waiting rank in
-- its own tables, and at `comm_rank` in those of the other.
use libmp.Base.{
  ℕ, ◌+◌, ◌-◌, ◌^◌, ◌≢◌, sym, subst, ◌⊎◌, inl, inr, ◌<◌, ◌≤◌, ◌≡◌, refl, true, List, [], ◌∷◌, ◌++◌,
  arith, ◌↔◌,
}
use libmp.Comm.Tables.{Comm, inc32}
use libmp.Comm.Handshake.{is_ready}

-- `next` is `remote_ready_values` of the one rank, `flight` the payloads of its puts on their way,
-- `word` the word of the other rank's table, and `value` its `ready_values`; `sent` and `passed`
-- count the announcements and the waits that ended.
pub record Pair : Type 0 where
  pub next : ℕ
  pub flight : List ℕ
  pub word : ℕ
  pub value : ℕ
  pub sent : ℕ
  pub passed : ℕ

-- as `comm_init` leaves them
abbrev pub fresh : Pair
fresh = record { next = 1; flight = []; word = 0; value = 1; sent = 0; passed = 0 }

-- The handshake between the rank of the tables `a` and the rank `r` with the tables `b`, in which the
-- first one is rank `q`.
abbrev pub pair_of :
    (a : Comm) → (r : ℕ) → (b : Comm) → (q : ℕ) → (flight : List ℕ) → (word sent passed : ℕ) → Pair
pair_of a r b q flight word sent passed = record {
  next = a.remote_ready_values r;
  flight = flight;
  word = word;
  value = b.ready_values q;
  sent = sent;
  passed = passed;
}

-- `comm_send_ready` puts the next value; puts arrive in their order; `comm_wait_ready` ends when the
-- word is ready for its value.
pub data PairStep : Pair → Pair → Type 0 where
  announce :
      (p : Pair)
      → PairStep p
          (record p { flight = p.flight ++ p.next ∷ []; next = inc32 p.next; sent = p.sent + 1 })
  arrive :
      (p : Pair) {v : ℕ} {rest : List ℕ}
      → p.flight ≡ v ∷ rest
      → PairStep p (record p { flight = rest; word = v })
  pass :
      (p : Pair)
      → is_ready p.word p.value ≡ true
      → PairStep p (record p { value = inc32 p.value; passed = p.passed + 1 })

pub data Reach : Pair → Type 0 where
  here : Reach fresh
  step : {p q : Pair} → Reach p → PairStep p q → Reach q

-- the payloads from the word on count up by one to the number of announcements
abbrev CountsUp : (word : ℕ) → List ℕ → (sent : ℕ) → Type 0
CountsUp word [] sent = word ≡ sent
CountsUp word (v ∷ flight) sent = (v ≡ word + 1) × CountsUp v flight sent

CountsUp-le : (word : ℕ) (flight : List ℕ) (sent : ℕ) → CountsUp word flight sent → word ≤ sent
CountsUp-le word [] sent up = omega arith
CountsUp-le word (v ∷ flight) sent (e, up) = omega (arith, CountsUp-le v flight sent up)

CountsUp-snoc :
    (word : ℕ) (flight : List ℕ) (sent : ℕ)
    → CountsUp word flight sent
    → CountsUp word (flight ++ (sent + 1) ∷ []) (sent + 1)
CountsUp-snoc word [] sent up = (omega arith, refl)
CountsUp-snoc word (v ∷ flight) sent (e, up) = (e, CountsUp-snoc v flight sent up)

-- what holds until 2^32 - 1 announcements were made
abbrev Counted : Pair → Type 0
Counted p = record {
  next : p.next ≡ p.sent + 1;
  value : p.value ≡ p.passed + 1;
  flight : CountsUp p.word p.flight p.sent;
  safe : p.passed ≤ p.sent;
}

sent_mono : (p q : Pair) → PairStep p q → p.sent ≤ q.sent
sent_mono p q (announce _) = omega arith
sent_mono p q (arrive _ e) = omega arith
sent_mono p q (pass _ e) = omega arith

pass_le :
    (word value passed sent : ℕ)
    → is_ready word value ≡ true
    → value ≡ passed + 1
    → word ≤ sent
    → passed + 1 ≤ sent
pass_le word value passed sent ready e le = ground arith

Counted-step : (p q : Pair) → q.sent < 2 ^ 32 - 1 → PairStep p q → Counted p → Counted q
Counted-step p q few (announce _) c = record {
  next = omega (arith, c.next);
  value = c.value;
  flight =
      subst (λ n. CountsUp p.word (p.flight ++ n ∷ []) (p.sent + 1)) (sym c.next)
        (CountsUp-snoc p.word p.flight p.sent c.flight);
  safe = omega (arith, c.safe);
}
Counted-step p q few (arrive _ {v} {rest} e) c = record {
  next = c.next;
  value = c.value;
  flight = (subst (λ flight. CountsUp p.word flight p.sent) e c.flight).1;
  safe = c.safe;
}
Counted-step p q few (pass _ e) c = record {
  next = c.next;
  value = omega (
    arith,
    c.value,
    pass_le p.word p.value p.passed p.sent e c.value (CountsUp-le p.word p.flight p.sent c.flight),
  );
  flight = c.flight;
  safe =
      pass_le p.word p.value p.passed p.sent e c.value
        (CountsUp-le p.word p.flight p.sent c.flight);
}

Reach-Counted : (p : Pair) → p.sent < 2 ^ 32 - 1 → Reach p → Counted p
Reach-Counted p few here = record { next = refl; value = refl; flight = refl; safe = omega arith }
Reach-Counted q few (step {p} reach move) =
    Counted-step p q few move (Reach-Counted p (omega (arith, sent_mono p q move)) reach)

ready_iff :
    (word value passed sent : ℕ)
    → value ≡ passed + 1
    → word ≡ sent
    → (is_ready word value ≡ true) ↔ (passed < sent)
ready_iff word value passed sent e e' = (λ ready. ground arith, λ lt. ground arith)

arrived :
    (word value passed sent : ℕ) (flight : List ℕ)
    → value ≡ passed + 1
    → CountsUp word flight sent
    → (flight ≢ []) ⊎ ((is_ready word value ≡ true) ↔ (passed < sent))
arrived word value passed sent [] e up = inr (ready_iff word value passed sent e up)
arrived word value passed sent (v ∷ flight) e up = inl (λ empty. cc)

-- In any order of announcements, arrivals and waits, while fewer than 2^32 - 1 announcements were
-- made: no more waits have ended than announcements were made; and when no announcement is on its
-- way, the next wait can end exactly if there were more announcements than waits.
pub handshake_safe :
    (p : Pair)
    → Reach p
    → p.sent < 2 ^ 32 - 1
    → (p.passed ≤ p.sent)
      × ((p.flight ≢ []) ⊎ ((is_ready p.word p.value ≡ true) ↔ (p.passed < p.sent)))
handshake_safe p reach few =
    let c : Counted p = Reach-Counted p few reach in
    (c.safe, arrived p.word p.value p.passed p.sent p.flight c.value c.flight)
