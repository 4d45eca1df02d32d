-- ===== src/Words.antt =====
-- The waits for a word in memory: `mp_wait32` of src/mp.c and `mp_wait32_on_stream` of
-- src/mp_peersync.c.
use libmp.Base.{
  ℕ, ◌≤◌, ◌≡◌, refl, ◌≢◌, Bool, false, ◌||◌, none, some, List, [], ◌∷◌, All, arith, ltb, leb,
  if◌then◌else◌, Bool-cases, inl, inr,
}
use libmp.Env.{Env}
use libmp.Machine.{State}
use libmp.Stream.{mp_wait32, mp_wait32_on_stream, MpWaitFlags, wait_geq, wait_eq, wait_and, other}

-- a word of `words` satisfies the test
abbrev pub any : (ℕ → Bool) → List ℕ → Bool
any test [] = false
any test (word ∷ words) = test word || any test words

-- With `MP_WAIT_GEQ`, mp_wait32 returns 0 once one of the words that it reads is at least the
-- value, and goes on while none is.
mp_wait32-geq :
    (words : List ℕ) (value : ℕ)
    → mp_wait32 words value wait_geq ≡ (if any (λ word. leb value word) words then some 0 else none)
unfolding mp_wait32
mp_wait32-geq [] value = refl
mp_wait32-geq (word ∷ words) value = elim (Bool-cases (leb value word)) [
  | inl e ↦ rw (mp_wait32, e) refl
  | inr e ↦ rw (mp_wait32, e) (mp_wait32-geq words value)
]

-- With `MP_WAIT_EQ`, mp_wait32 goes on for as long as the word is at most the value: it does not
-- return when the word is equal to it.
mp_wait32-eq :
    (words : List ℕ) (value : ℕ)
    → All (λ word. word ≤ value) words
    → mp_wait32 words value wait_eq ≡ none
unfolding mp_wait32
mp_wait32-eq [] value below = refl
mp_wait32-eq (word ∷ words) value (le, below) =
    let e : ltb value word ≡ false = ground arith in
    rw (mp_wait32, e) (mp_wait32-eq words value below)

-- Whatever the flag is, if it is one of the three, mp_wait32_on_stream does the same as with
-- `MP_WAIT_GEQ`.
mp_wait32_on_stream-geq :
    {W : Type 0} (env : Env W) (ptr value stream : ℕ) (flags : MpWaitFlags) (s : State W)
    → flags ≢ other
    → mp_wait32_on_stream env ptr value flags stream s
      ≡ mp_wait32_on_stream env ptr value wait_geq stream s
unfolding mp_wait32_on_stream
mp_wait32_on_stream-geq env ptr value stream wait_geq s ne = refl
mp_wait32_on_stream-geq env ptr value stream wait_eq s ne = refl
mp_wait32_on_stream-geq env ptr value stream wait_and s ne = refl
mp_wait32_on_stream-geq env ptr value stream other s ne = absurd (ne refl)
