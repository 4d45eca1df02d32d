-- ===== src/Ipc/Slot.antt =====
-- The ring of slots through which `mp_isend` of src/mp.c hands a message to a peer on the same node.
use libmp.Base.{
  ℕ, ◌+◌, ◌-◌, ◌%◌, ◌^◌, ◌<◌, ◌≤◌, ◌≡◌, refl, ◌≢◌, ap, sym, subst, true, false, arith, update_self,
  update_ne, Bool-cases, inl, inr,
}
use libmp.Types.{Ptr, SmpBuffer, SmpChannel, Client, IpcHandleCacheEntry}
use libmp.Env.{Env}
use libmp.Machine.{State}
use libmp.Machine.Outcome.{Ensures, done, faults}
use libmp.Ipc.{put_slot, fill_slot}

-- the channel of the client
abbrev pub channel : {W : Type 0} → State W → ℕ → SmpChannel
channel s i = (s.clients i).smp

-- The slot holds the message `p` of `size` bytes at `buf`, which is `offset` bytes into the
-- allocation of the entry `e`, and that entry's handle, base address and size.
abbrev pub Holds : (buf size : ℕ) → Ptr → IpcHandleCacheEntry → SmpBuffer → Type 0
Holds buf size p e slot = record {
  busy : slot.busy ≡ true;
  taken : slot.free ≡ false;
  request : slot.sreq ≡ p;
  addr : slot.addr ≡ buf;
  size : slot.size ≡ size;
  handle : slot.handle ≡ e.handle;
  base : slot.base_addr ≡ e.base;
  base_size : slot.base_size ≡ e.size;
  offset : e.base + slot.offset ≡ buf;
}

-- The channel `d` is `c` with that message in the slot at the head, and the head advanced.
abbrev Put : (depth buf size : ℕ) → Ptr → IpcHandleCacheEntry → (c d : SmpChannel) → Type 0
Put depth buf size p e c d =
    Holds buf size p e (d.remote_buffer c.remote_head)
    × ((k : ℕ) → k ≢ c.remote_head → d.remote_buffer k ≡ c.remote_buffer k)
    × (d.remote_head ≡ (c.remote_head + 1) % depth)
    × (d.local_buffer ≡ c.local_buffer)
    × (d.local_tail_process ≡ c.local_tail_process)

-- The slot at the head of `c` is free, and `d` is `c` with the message in it.
abbrev pub Filled : (depth buf size : ℕ) → Ptr → IpcHandleCacheEntry → (c d : SmpChannel) → Type 0
Filled depth buf size p e c d =
    ((c.remote_buffer c.remote_head).free ≡ true) × Put depth buf size p e c d

offset-small :
    (buf base : ℕ) → base ≤ buf → buf < base + 2 ^ 31 → base + (buf + 2 ^ 64 - base) % 2 ^ 32 ≡ buf
offset-small buf base le lt = omega arith

fill_slot-Holds :
    (buf size : ℕ) (p : Ptr) (e : IpcHandleCacheEntry)
    → e.base ≤ buf
    → buf < e.base + 2 ^ 31
    → Holds buf size p e (fill_slot buf size p e)
fill_slot-Holds buf size p e le lt = record {
  busy = refl;
  taken = refl;
  request = refl;
  addr = refl;
  size = refl;
  handle = refl;
  base = refl;
  base_size = refl;
  offset = offset-small buf e.base le lt;
}

module _ {W : Type 0} (env : Env W) where
  open env use {config}

  -- For a buffer that starts less than 2^31 bytes into the allocation of its cache entry, put_slot
  -- returns only if the slot at the head of the client's ring was free, so no message is
  -- overwritten, and it faults only if it was not. On return that slot holds the message with the
  -- entry's handle, base address and size, the head is advanced by one, modulo `smp_depth`, and
  -- all other slots, the receive side of the channel and the requests stay.
  pub put_slot-Filled :
      (client buf size : ℕ) (p : Ptr) (e : IpcHandleCacheEntry) (s : State W)
      → e.base ≤ buf
      → buf < e.base + 2 ^ 31
      → Ensures
          (λ _ t.
            Filled config.smp_depth buf size p e (channel s client) (channel t client)
            × (t.reqs ≡ s.reqs))
          (((channel s client).remote_buffer (channel s client).remote_head).free ≡ false)
          (put_slot env client buf size p e s)
  unfolding put_slot
  put_slot-Filled client buf size p e s le lt =
      let c : SmpChannel = channel s client in
      elim (Bool-cases (c.remote_buffer c.remote_head).free) [
        | inr taken ↦ rw taken (faults refl)
        | inl free ↦ rw free (
            done (
              (
                refl,
                subst (λ d. Put config.smp_depth buf size p e c d)
                    (sym (ap (λ (x : Client). x.smp) (update_self s.clients client _)))
                    (
                      subst (λ slot. Holds buf size p e slot)
                          (sym (update_self c.remote_buffer c.remote_head _))
                          (fill_slot-Holds buf size p e le lt),
                      λ k ne. update_ne c.remote_buffer c.remote_head k _ ne,
                      refl,
                      refl,
                      refl,
                    ),
              ),
              refl,
            ))
      ]
