-- ===== src/Ipc/Overlap.antt =====
-- The search of the handle cache in src/mp.c: `ipc_handle_cache_find` and its test.
use libmp.Base.{
  ℕ, ◌+◌, ◌≤◌, ◌<◌, ◌^◌, ◌≡◌, refl, ◌%◌, ◌-◌, Bool, true, false, ◌&&◌, Option, none, some, List, [],
  ◌∷◌, All, arith, ltb, leb, if◌then◌else◌,
}
use libmp.Types.{IpcHandleCacheEntry}
use libmp.Ipc.{overlaps, find_entry, int_as_u64}

-- the half-open ranges share a byte
abbrev pub meet : (base size addr length : ℕ) → Bool
meet base size addr length = ltb addr (base + size) && ltb base (addr + length)

int_as_u64-small : (n : ℕ) → n < 2 ^ 31 → int_as_u64 n ≡ n
int_as_u64-small n lt =
    let e : n % 2 ^ 32 ≡ n = omega arith in
    let e' : ltb n (2 ^ 31) ≡ true = ground arith in rw (e, e') refl

-- For a cached size below 2^31 and ranges that end below 2^64, the test of ipc_handle_cache_find
-- holds exactly if the two ranges share a byte.
pub overlaps-meet :
    (base size addr length : ℕ)
    → size < 2 ^ 31
    → base + size < 2 ^ 64
    → addr + length < 2 ^ 64
    → overlaps base size addr length ≡ meet base size addr length
unfolding overlaps
overlaps-meet base size addr length small b a =
    let e : (base + size) % 2 ^ 64 ≡ base + size = omega arith in
    let e' : (addr + length) % 2 ^ 64 ≡ addr + length = omega arith in
    rw (int_as_u64-small size small, e, e') (ground arith)

-- the first entry that satisfies the test
abbrev pub first :
    (IpcHandleCacheEntry → Bool) → List IpcHandleCacheEntry → Option IpcHandleCacheEntry
first test [] = none
first test (e ∷ cache) = if test e then some e else first test cache

-- the base address that is compared
abbrev pub key : (local : Bool) → IpcHandleCacheEntry → ℕ
key local e = if local then e.base else e.remote_base

-- The range of the entry is smaller than 2^31 bytes and ends below 2^64.
abbrev pub Fits : (local : Bool) → IpcHandleCacheEntry → Type 0
Fits local e = (e.size < 2 ^ 31) × (key local e + e.size < 2 ^ 64)

-- If every cached range is smaller than 2^31 bytes and no range wraps around 2^64, the search of
-- the handle cache finds the first entry whose range shares a byte with the given one, and none if
-- there is none.
pub find_entry-first :
    (local : Bool) (addr size : ℕ) (cache : List IpcHandleCacheEntry)
    → addr + size < 2 ^ 64
    → All (Fits local) cache
    → find_entry local addr size cache ≡ first (λ e. meet (key local e) e.size addr size) cache
unfolding find_entry
find_entry-first local addr size [] below fits = refl
find_entry-first local addr size (e ∷ cache) below ((small, ends), fits) =
    rw
      (
        overlaps-meet (key local e) e.size addr size small ends below,
        find_entry-first local addr size cache below fits,
      )
      refl

-- From 2^31 on the size is taken for a negative number: a cached allocation of 2^31 to 2^32 - 1
-- bytes whose base is at least 2^32 is not found for any range that starts at or behind its base.
overlaps-large :
    (base size addr length : ℕ)
    → 2 ^ 31 ≤ size
    → size < 2 ^ 32
    → 2 ^ 32 ≤ base
    → base < 2 ^ 63
    → base ≤ addr
    → overlaps base size addr length ≡ false
unfolding overlaps
overlaps-large base size addr length large lt32 b below le =
    let e : size % 2 ^ 32 ≡ size = omega arith in
    let e' : ltb size (2 ^ 31) ≡ false = ground arith in
    let e2 : leb ((base + (2 ^ 64 - 2 ^ 32 + size)) % 2 ^ 64) addr ≡ true = ground (arith) in
    rw (e, e', e2) refl
