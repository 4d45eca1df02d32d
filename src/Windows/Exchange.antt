-- ===== src/Windows/Exchange.antt =====
-- The exchange of `mp_window_create` in src/mp.c.
use libmp.Base.{
  not, zero, suc, subst, ℕ, ◌%◌, ◌^◌, ◌≡◌, refl, ◌∙◌, ap, ◌==◌, Option, none, some, Bool-cases, inl,
  inr, Option-cases, arith,
}
use libmp.Types.{Code, Client, IbvMr, ExchangeWinInfo}
use libmp.Env.{Env}
use libmp.Machine.{State, ◌>>=◌, call, exit_unless}
use libmp.Machine.Outcome.{Ensures, done, faults, Ensures-bind, Ensures-mono}
use libmp.Ipc.{int_as_u64, cu_check}
use libmp.Send.{MpReg, MpWindow}
use libmp.Windows.{
  contribution, allocate, exchange_window, sync_memops, mp_register, mp_window_create,
}

-- Nothing of the process changes.
abbrev pub SameButWorld : {W : Type 0} → State W → State W → Type 0
SameButWorld s t = t ≡ record s { world = t.world }

pub SameButWorld-call :
    {W : Type 0} (s t : State W) (w : W)
    → SameButWorld s t
    → SameButWorld s (record t { world = w })
SameButWorld-call {W} s t w same = ap {A = State W} {B = State W} (λ v. record v { world = w }) same

module _ {W : Type 0} (env : Env W) where
  open env use {config}

  -- behind the query of the address range
  after_range :
      (range : Option (ℕ × ℕ)) (s : State W)
      → Ensures
          (λ _ t. SameButWorld s t)
          Unit
          ((cu_check env range
              >>= (λ r. call (env.cu_pointer_set_sync_memops r.0) >>= (λ b. exit_unless b)))
            s)
  after_range none s = faults tt
  after_range (some (base, size)) s =
      elim (Bool-cases (env.cu_pointer_set_sync_memops base s.world).0) [
        | inl set ↦ rw set (done refl)
        | inr not_set ↦ rw not_set (faults tt)
      ]

  sync_memops-world :
      (addr : ℕ) (s : State W) → Ensures (λ _ t. SameButWorld s t) Unit (sync_memops env addr s)
  unfolding sync_memops
  sync_memops-world addr s = elim (Bool-cases (env.cu_pointer_is_device addr s.world).0) [
    | inr host ↦ rw host (done refl)
    | inl device ↦ rw device (after_range _ _)
  ]

  -- A registration that is handed over is one that `ibv_reg_mr` made of these bytes.
  abbrev Obtained : (addr size : ℕ) → Option MpReg → Type 0
  Obtained addr size made =
      (reg : MpReg)
      → made ≡ some reg
      → (w : W) × ((env.ibv_reg_mr addr size (not config.mp_enable_ud) w).0 ≡ some reg.mr)

  mp_register-Obtained :
      (addr size : ℕ) (s : State W)
      → Ensures
          (λ r t. Obtained addr size r.1 × SameButWorld s t)
          Unit
          (mp_register env addr size s)
  unfolding mp_register
  mp_register-Obtained addr size s = elim (Bool-cases (env.malloc s.world).0) [
    | inr refused ↦ rw refused (done ((λ reg e. ground arith), refl))
    | inl given ↦ rw given (
        Ensures-bind (sync_memops-world addr _) (λ f. f)
          λ _ t same.
            elim (Option-cases (env.ibv_reg_mr addr size (not config.mp_enable_ud) t.world).0) [
              | inl failed ↦ rw failed (faults tt)
              | inr (mr, made) ↦ rw made (
                  done (
                    (λ reg e. (
                      t.world,
                      made
                          ∙ ap {A = Option MpReg} {B = Option IbvMr}
                              (λ m. elim m [ none ↦ none | some r ↦ some r.mr ]) e,
                    )),
                    SameButWorld-call (record s { world = (env.malloc s.world).1 }) t
                        (env.ibv_reg_mr addr size (not config.mp_enable_ud) t.world).1 same,
                  ))
            ])
  ]

  pub mp_register-world :
      (addr size : ℕ) (s : State W)
      → Ensures (λ _ t. SameButWorld s t) Unit (mp_register env addr size s)
  mp_register-world addr size s =
      Ensures-mono (mp_register-Obtained addr size s) (λ f. f) λ _ _ (_, same). same

  allocate-clients :
      (count : ℕ) (s : State W) → Ensures (λ _ t. t.clients ≡ s.clients) Unit (allocate env count s)
  unfolding allocate
  allocate-clients zero s = done refl
  allocate-clients (suc count) s = elim (Bool-cases (env.malloc s.world).0) [
    | inr refused ↦ rw refused (faults tt)
    | inl given ↦ rw given (allocate-clients count _)
  ]

  exchange_window-clients :
      (addr size : ℕ) (reg : Code × Option MpReg) (s : State W)
      → Ensures (λ _ t. t.clients ≡ s.clients) Unit (exchange_window env addr size reg s)
  unfolding exchange_window
  exchange_window-clients addr size (ret, none) s = faults tt
  exchange_window-clients addr size (ret, some reg) s = elim (Bool-cases (ret == 0)) [
    | inr bad ↦ rw bad (faults tt)
    | inl good ↦ rw good (done refl)
  ]

  pub mp_window_create-clients :
      (addr size : ℕ) (s : State W)
      → Ensures (λ _ t. t.clients ≡ s.clients) Unit (mp_window_create env addr size s)
  unfolding mp_window_create
  mp_window_create-clients addr size s =
      Ensures-bind (allocate-clients 5 s) (λ f. f)
        λ _ t e.
          Ensures-bind (mp_register-world addr size t) (λ f. f)
            λ reg u same.
              Ensures-mono (exchange_window-clients addr size reg u) (λ f. f)
                λ _ v e'. e' ∙ ap (λ (v : State W). v.clients) same ∙ e

-- The ranks' windows: where each starts, its size, and the key of its registration.
module _ {W : Type 0} (env : Env W) (addr size key : ℕ → ℕ) where
  open env use {config}

  -- what the ranks contribute to the exchange
  abbrev table : ℕ → ExchangeWinInfo
  table rank = contribution (addr rank) (size rank) (key rank)

  abbrev pub own : ℕ
  own = config.mpi_comm_rank

  -- A registration of this rank's window gets the key.
  abbrev pub Registers : Type 0
  Registers =
      (w : W) (mr : IbvMr)
      → (env.ibv_reg_mr (addr own) (size own) (not config.mp_enable_ud) w).0 ≡ some mr
      → mr.rkey ≡ key own

  -- `MPI_Allgather` hands over what all ranks contribute if this rank contributes its part.
  abbrev pub Gathers : Type 0
  Gathers = (w : W) → (env.mpi_allgather (table own) w).0 ≡ table

  -- The window has for each client what the client's rank registered.
  abbrev pub Describes : (ℕ → Client) → Code × MpWindow → Type 0
  Describes clients r =
      (r.0 ≡ 0)
      × (r.1.reg.mr.rkey ≡ key own)
      × ((i : ℕ)
          → (r.1.base_ptr i ≡ addr (clients i).mpi_rank)
            × (r.1.rkey i ≡ key (clients i).mpi_rank)
            × (r.1.rsize i ≡ int_as_u64 (size (clients i).mpi_rank % 2 ^ 32)))

  exchange_window-Describes :
      (ret : Code) (made : Option MpReg) (s : State W)
      → Registers
      → Gathers
      → Obtained env (addr own) (size own) made
      → Ensures
          (λ r _. Describes s.clients r)
          Unit
          (exchange_window env (addr own) (size own) (ret, made) s)
  unfolding exchange_window
  exchange_window-Describes ret none s registers gathers obtained = faults tt
  exchange_window-Describes ret (some reg) s registers gathers obtained =
      let (w, e) = obtained reg refl in
      let k : reg.mr.rkey ≡ key own = registers w reg.mr e in
      let g : (env.mpi_allgather (contribution (addr own) (size own) reg.mr.rkey) s.world).0
          ≡ table =
        ap (λ a. (env.mpi_allgather (contribution (addr own) (size own) a) s.world).0) k
        ∙ gathers s.world in
      elim (Bool-cases (ret == 0)) [
        | inr bad ↦ rw bad (faults tt)
        | inl good ↦ rw good (
            done (
              refl,
              k,
              λ i. (
                ap (λ f. (f (s.clients i).mpi_rank).base_addr) g,
                ap (λ f. (f (s.clients i).mpi_rank).rkey) g,
                ap (λ f. int_as_u64 (f (s.clients i).mpi_rank).size) g,
              ),
            ))
      ]

  -- Let every rank have a window, of which `ibv_reg_mr` registers this rank's with its key, and let
  -- MPI_Allgather hand over the ranks' addresses, keys and sizes, the sizes cut to 32 bits, if this
  -- rank contributes its own. Then mp_window_create on this rank's window faults, or it returns 0
  -- with this rank's registration and, for each client, the address and the key of the window of
  -- the client's rank, and as its size the low 32 bits of the size, sign extended.
  pub mp_window_create-Describes :
      (s : State W)
      → Registers
      → Gathers
      → Ensures (λ r _. Describes s.clients r) Unit (mp_window_create env (addr own) (size own) s)
  unfolding mp_window_create
  mp_window_create-Describes s registers gathers =
      Ensures-bind (allocate-clients env 5 s) (λ f. f)
        λ _ t e.
          Ensures-bind (mp_register-Obtained env (addr own) (size own) t) (λ f. f)
            λ (ret, made) u (obtained, same).
              let e' : u.clients ≡ t.clients = ap (λ (v : State W). v.clients) same in
              Ensures-mono (exchange_window-Describes ret made u registers gathers obtained)
                (λ f. f) λ r _ d. subst (λ (f : ℕ → Client). Describes f r) (e' ∙ e) d
