-- ===== src/Init/Opened.antt =====
-- The device and the tables that `mp_init` of src/mp.c sets up first.
use libmp.Base.{
  ℕ, ◌≡◌, refl, Bool, Option, none, some, List, [], Bool-cases, Option-cases, inl, inr,
}
use libmp.Types.{Ptr}
use libmp.Env.{Env}
use libmp.Machine.{State, pure, call, ◌>>=◌}
use libmp.Machine.Outcome.{Ensures, done, faults}
use libmp.Pool.FreeList.{FreeList}
use libmp.Windows.Exchange.{SameButWorld}
use libmp.Init.Settings.{Text, Settings}
use libmp.Init.Verbs.{PortAttr, Host}
use libmp.Init.Connect.{or_failure, unless_failure}
use libmp.Init.Start.{limited, pick_device, open_device, allocate_tables}
use libmp.Init.Failures.{OnSuccess}

module _ {W : Type 0} (env : Env W) (host : Host W) where
  open env use {config}

  -- the settings that `open_device` does not touch
  abbrev pub SameModes : (settings limits : Settings) → Type 0
  SameModes settings limits =
      (limits.mp_enable_ud ≡ settings.mp_enable_ud)
      × (limits.mp_enable_ipc ≡ settings.mp_enable_ipc)

  -- behind the choice of the device
  pub picked-world :
      (settings : Settings) (name : Text) (s : State W)
      → Ensures
          (λ o t.
            OnSuccess
              (λ (d : Settings × PortAttr) u. SameModes settings d.0 × SameButWorld s u)
              o
              t)
          Unit
          ((do
            given ← call env.malloc
            unless_failure given (do
              opened ← call (host.ibv_open_device name)
              unless_failure opened (do
                attr ← call host.ibv_query_device
                or_failure attr (λ max_sge. do
                  pd ← call host.ibv_alloc_pd
                  unless_failure pd (do
                    port ← call host.ibv_query_port
                    pure (some (limited max_sge settings, port)))))))
            s)
  picked-world settings name s =
      let w : W = (env.malloc s.world).1 in
      let opened : Bool × W = host.ibv_open_device name w in
      let queried : Option ℕ × W = host.ibv_query_device opened.1 in
      elim (Bool-cases (env.malloc s.world).0) [
        | inr e ↦ rw e (done tt)
        | inl e ↦ rw e (elim (Bool-cases opened.0) [
          | inr e' ↦ rw e' (done tt)
          | inl e' ↦ rw e' (elim (Option-cases queried.0) [
            | inl e'' ↦ rw e'' (done tt)
            | inr (max_sge, e'') ↦ rw e'' (elim (Bool-cases (host.ibv_alloc_pd queried.1).0) [
              | inr refused ↦ rw refused (done tt)
              | inl given ↦ rw given (done ((refl, refl), refl))
            ])
          ])
        ])
      ]

  pub open_device-world :
      (settings : Settings) (s : State W)
      → Ensures
          (λ o t.
            OnSuccess
              (λ (d : Settings × PortAttr) u. SameModes settings d.0 × SameButWorld s u)
              o
              t)
          Unit
          (open_device env host settings s)
  unfolding open_device
  open_device-world settings s = elim (Option-cases (host.ibv_get_device_list s.world).0) [
    | inl e ↦ rw e (done tt)
    | inr (names, listed) ↦ rw listed (elim (Option-cases (pick_device settings.req_dev names)) [
      | inl e ↦ rw e (faults tt)
      | inr (name, e) ↦
          rw e
            (picked-world settings name (record s { world = (host.ibv_get_device_list s.world).1 }))
    ])
  ]

  pub allocate_tables-lem :
      (frees : List Ptr) (s : State W)
      → FreeList frees s
      → Ensures
          (λ o t.
            OnSuccess
              (λ g u. ((rank : ℕ) → g.client_index rank ≡ none) × (g.moves ≡ []) × FreeList frees u)
              o
              t)
          Unit
          (allocate_tables env host s)
  unfolding allocate_tables
  allocate_tables-lem frees s fl =
      let index : Bool × W = env.malloc s.world in
      let clients : Bool × W = env.malloc index.1 in
      elim (Bool-cases index.0) [
        | inr e ↦ rw e (done tt)
        | inl e ↦ rw e (elim (Bool-cases clients.0) [
          | inr e' ↦ rw e' (done tt)
          | inl e' ↦ rw e' (elim (Bool-cases (env.malloc clients.1).0) [
            | inr refused ↦ rw refused (done tt)
            | inl given ↦ rw given (done ((λ rank. refl), refl, fl))
          ])
        ])
      ]
