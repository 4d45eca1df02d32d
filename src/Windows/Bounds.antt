-- ===== src/Windows/Bounds.antt =====
-- The range of a put: `mp_iput` of src/mp.c on a window of `mp_window_create`.
use libmp.Base.{◌≢◌, [], ◌∷◌, ℕ, ◌+◌, ◌≤◌, ◌≡◌, ◌⊎◌, none, some}
use libmp.Types.{Ptr, rdma_at, Target}
use libmp.Env.{Env}
use libmp.Machine.{State}
use libmp.Pool.FreeList.{FreeList}
use libmp.Send.{Posted, MpWindow, sge}

-- The target is `displ` bytes into the window of `rsize` bytes at `base`, and `size` bytes from there
-- on are in the window.
abbrev Within : (base rsize rkey displ size : ℕ) → Target → Type 0
Within base rsize rkey displ size target =
    (a : ℕ) × (target ≡ rdma_at a rkey) × (a ≡ base + displ) × (a + size ≤ base + rsize)

-- A code that is not 0 and nothing stored in `*req_t`, or 0 and a request whose work request takes
-- `size` bytes at `src` and writes them within the window of client `i`, from `displ` on.
abbrev pub WritesWithin :
    {W : Type 0} → MpWindow → (i src size key displ : ℕ) → Posted → State W → Type 0
WritesWithin window i src size key displ r t =
    ((r.0 ≢ 0) × (r.1 ≡ none))
    ⊎ ((r.0 ≡ 0)
        × ((p : Ptr) × (r.1 ≡ some p)
            × ((t.reqs p).sr.sg_list ≡ sge src size key ∷ [])
            × Within (window.base_ptr i) (window.rsize i) (window.rkey i) displ size
                (t.reqs p).sr.target))
