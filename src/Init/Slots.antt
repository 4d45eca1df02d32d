-- ===== src/Init/Slots.antt =====
-- The layout of the shared memory in `mp_init` of src/mp.c.
use libmp.Base.{
  ℕ, ◌+◌, ◌*◌, ◌%◌, ◌^◌, ◌<◌, ◌≤◌, ◌≡◌, ◌∙◌, arith, ◌⊎◌, inl, inr, ltb, ◌==◌, Bool-cases,
}
use libmp.Ipc.{add64, int_as_u64}
use libmp.Init.Shared.{shm_client_bufsize, shm_proc_bufsize, shm_filesize, slots_offset}

-- the slots of one owner for one peer, by position
abbrev place : (client procs owner peer : ℕ) → ℕ
place client procs owner peer = (owner * procs + peer) * client

-- One of two blocks ends before the other starts.
abbrev pub Apart : (a b size : ℕ) → Type 0
Apart a b size = (a + size ≤ b) ⊎ (b + size ≤ a)

position_lt :
    (procs owner peer : ℕ) → owner < procs → peer < procs → owner * procs + peer < procs * procs
position_lt procs owner peer lt lt' = grind arith

add_small : (a b : ℕ) → a + b < 2 ^ 31 → add64 (int_as_u64 a) (int_as_u64 b) ≡ a + b
add_small a b small = ground arith

mod_small : (a : ℕ) → a < 2 ^ 31 → a % 2 ^ 32 ≡ a
mod_small a small = omega arith

position_le :
    (c procs owner peer : ℕ)
    → owner < procs
    → peer < procs
    → c * procs * owner + c * peer + c ≤ c * procs * procs
position_le c procs owner peer lt lt' = grind arith

product_le : (c procs : ℕ) → 0 < procs → c ≤ c * procs
product_le c procs pos = grind arith

offset_small :
    (c procs owner peer : ℕ)
    → c * procs * procs < 2 ^ 31
    → owner < procs
    → peer < procs
    → add64 (int_as_u64 ((c % 2 ^ 32 * procs) % 2 ^ 32 * owner)) (int_as_u64 (c % 2 ^ 32 * peer))
      ≡ place c procs owner peer
offset_small c procs owner peer small lt lt' =
    let one : c ≤ c * procs = product_le c procs (omega arith) in
    let two : c * procs ≤ c * procs * procs = product_le (c * procs) procs (omega arith) in
    let fits : c * procs * owner + c * peer + c ≤ c * procs * procs =
      position_le c procs owner peer lt lt' in
    let client : c % 2 ^ 32 ≡ c = mod_small c (omega arith) in
    let process : c * procs % 2 ^ 32 ≡ c * procs = mod_small (c * procs) (omega arith) in
    rw (client, process) (add_small (c * procs * owner) (c * peer) (omega arith) ∙ grind arith)

earlier : (procs a b a' b' : ℕ) → b < procs → a < a' → a * procs + b < a' * procs + b'
earlier procs a b a' b' lt less = grind arith

below : (p q c : ℕ) → p < q → p * c + c ≤ q * c
below p q c lt = grind arith

places-Apart :
    (c procs a b a' b' : ℕ)
    → b < procs
    → b' < procs
    → ((a ≡ a') × (b ≡ b')) ⊎ Apart (place c procs a b) (place c procs a' b') c
places-Apart c procs a b a' b' lt lt' = elim (Bool-cases (ltb a a')) [
  | inl e ↦ inr (inl (below _ _ c (earlier procs a b a' b' lt (ground arith))))
  | inr e ↦ elim (Bool-cases (ltb a' a)) [
    | inl e' ↦ inr (inr (below _ _ c (earlier procs a' b' a b lt' (ground arith))))
    | inr e' ↦
        let p : a ≡ a' = ground arith in
        elim (Bool-cases (b == b')) [
          | inl e'' ↦ inl (p, ground arith)
          | inr e'' ↦ rw p (elim (Bool-cases (ltb b b')) [
            | inl less ↦ inr (inl (below _ _ c (ground arith)))
            | inr more ↦ inr (inr (below _ _ c (ground arith)))
          ])
        ]
  ]
]

file_size :
    (c procs owner peer : ℕ)
    → owner < procs
    → peer < procs
    → place c procs owner peer + c ≤ c * procs * procs
file_size c procs owner peer lt lt' = grind arith

-- For local ranks below the number of processes, where the slots of all of them take less than 2^31
-- bytes: the slots of one owner for one peer lie within the size of the shared file, and those of
-- another owner or for another peer lie apart from them.
pub slots_offset-Apart :
    (sizeof depth procs owner peer owner' peer' : ℕ)
    → sizeof * depth * procs * procs < 2 ^ 31
    → owner < procs
    → peer < procs
    → owner' < procs
    → peer' < procs
    → (slots_offset sizeof depth procs owner peer + sizeof * depth
        ≤ shm_filesize sizeof depth procs)
      × (((owner ≡ owner') × (peer ≡ peer'))
          ⊎ Apart
              (slots_offset sizeof depth procs owner peer)
              (slots_offset sizeof depth procs owner' peer')
              (sizeof * depth))
unfolding slots_offset shm_proc_bufsize shm_client_bufsize shm_filesize
slots_offset-Apart sizeof depth procs owner peer owner' peer' small lt lt' lt1 lt2 =
    let c : ℕ = sizeof * depth in
    rw
      (
        offset_small c procs owner peer small lt lt',
        offset_small c procs owner' peer' small lt1 lt2,
        mod_small (c * procs * procs) small,
      )
      (file_size c procs owner peer lt lt', places-Apart c procs owner peer owner' peer' lt' lt2)
