-- ===== src/Init/Whole.antt =====
-- `mp_init` of src/mp.c as a whole.
use libmp.Base.{
  ℕ, ◌<◌, ◌≡◌, refl, ◌∙◌, ap, sym, subst, true, false, not, Option, none, some, List, arith, ◌==◌,
  Bool-cases, Option-cases, inl, inr, Distinct,
}
use libmp.Types.{null}
use libmp.Env.{Env}
use libmp.Machine.{State, gets, assert, ◌>>=◌, ◌>>◌}
use libmp.Machine.Outcome.{Ensures, done, faults, Ensures-bind, Ensures-mono}
use libmp.Machine.Commands.{branch}
use libmp.Pool.{allocate_requests}
use libmp.Pool.Region.{addresses}
use libmp.Pool.Refill.{allocate_requests-FreeList}
use libmp.Init.Settings.{Settings, read_settings, less_int, is_on}
use libmp.Init.Verbs.{PortAttr, Host}
use libmp.Init.Connect.{or_failure}
use libmp.Init.Shared.{connect_ipc}
use libmp.Init.Start.{Started, allocate_tables, with_ipc, connect, mp_init}
use libmp.Init.Failures.{OnSuccess, or_failure-Ensures}
use libmp.Init.Ready.{Ready, connect-Ready}
use libmp.Init.Opened.{open_device-world, allocate_tables-lem}

failed_lem : {W : Type 0} (o : Option Started) (t : State W) → OnSuccess (λ _ _. ⊥) o t → o ≡ none
failed_lem none t p = refl
failed_lem (some g) t p = absurd p

module _ {W : Type 0} (env : Env W) (host : Host W) where
  open env use {config}

  module _ (Q : Started → State W → Type 0) (peers : List ℕ) (gpu_id fuel : ℕ) (s : State W) where
    -- the premise on the IPC part
    abbrev Shares : Settings → Type 0
    Shares settings =
        (port : PortAttr) (g : Started) (u : State W)
        → Ready env host (addresses config.mp_request_limit s.brk) peers
            (is_on settings.mp_enable_ud) (is_on settings.mp_enable_ipc) port g u
        → Ensures (λ o t. OnSuccess Q o t) Unit (with_ipc env host fuel g u)

    -- behind the choice of the device and its limits
    opened-Ready :
        (settings limits : Settings) (port : PortAttr) (t : State W)
        → Distinct peers
        → 0 < config.mp_request_limit
        → 0 < s.brk
        → s.free_list ≡ null
        → limits.mp_enable_ud ≡ settings.mp_enable_ud
        → limits.mp_enable_ipc ≡ settings.mp_enable_ipc
        → t.brk ≡ s.brk
        → t.free_list ≡ s.free_list
        → Shares settings
        → Ensures
            (λ o u. OnSuccess Q o u)
            Unit
            ((do
              allocate_requests env
              assert (not ((← gets (λ u. u.free_list)) == null))
              tables ← allocate_tables env host
              or_failure tables (λ g. connect env host peers gpu_id fuel limits port g))
              t)
    opened-Ready settings limits port t distinct lim pos empty same_ud same_ipc same_brk same_list
          shares =
        Ensures-bind
          (allocate_requests-FreeList env t lim (subst (λ b. 0 < b) (sym same_brk) pos)
            (same_list ∙ empty))
          (λ _. tt)
          λ _ u (fl, _). elim (Bool-cases (u.free_list == null)) [
            | inl e ↦ rw e (faults tt)
            | inr e ↦ rw e (
                Ensures-bind
                  (allocate_tables-lem env host (addresses config.mp_request_limit t.brk) u fl)
                  (λ f. f)
                  λ o v q. or_failure-Ensures _ o _ v q λ g (clear, fresh, fl').
                    connect-Ready env host Q (addresses config.mp_request_limit t.brk) peers gpu_id
                      fuel limits port g v distinct clear fresh fl'
                      λ h x ready. shares port h x (
                        subst
                          (λ b.
                            Ready env host (addresses config.mp_request_limit b) peers
                              (is_on settings.mp_enable_ud) (is_on settings.mp_enable_ipc) port h x)
                          same_brk
                          (subst
                            (λ n.
                              Ready env host (addresses config.mp_request_limit t.brk) peers
                                (is_on n) (is_on settings.mp_enable_ipc) port h x)
                            same_ud
                            (subst
                              (λ n.
                                Ready env host (addresses config.mp_request_limit t.brk) peers
                                  (is_on limits.mp_enable_ud) (is_on n) port h x)
                              same_ipc ready))))
          ]

    started-Ready :
        (init_flags : ℕ)
        → Distinct peers
        → 0 < config.mp_request_limit
        → 0 < s.brk
        → s.free_list ≡ null
        → Shares (read_settings host.getenv init_flags)
        → Ensures (λ o t. OnSuccess Q o t) Unit (mp_init env host peers init_flags gpu_id fuel s)
    unfolding mp_init
    started-Ready init_flags distinct lim pos empty shares =
        let settings : Settings = read_settings host.getenv init_flags in
        let version : Option ℕ × W = host.gds_query_version s.world in
        elim (Bool-cases (less_int gpu_id 0)) [
          | inl negative ↦ rw negative (done tt)
          | inr e ↦ rw e (elim (Option-cases version.0) [
            | inl e' ↦ rw e' (done tt)
            | inr (v, e') ↦ rw e' (elim (Bool-cases (host.gds_version_compatible v)) [
              | inr old ↦ rw old (done tt)
              | inl new ↦ rw new (
                  Ensures-bind
                    (open_device-world env host settings (record s { world = version.1 })) (λ f. f)
                    λ d t p.
                      or_failure-Ensures _ d _ t p λ (limits, port) ((same_ud, same_ipc), same).
                        opened-Ready settings limits port t distinct lim pos empty same_ud same_ipc
                          (ap (λ (u : State W). u.brk) same)
                          (ap (λ (u : State W). u.free_list) same) shares)
            ])
          ])
        ]

  pub mp_init-Ready :
      (peers : List ℕ) (init_flags gpu_id fuel : ℕ) (s : State W)
      → is_on (read_settings host.getenv init_flags).mp_enable_ipc ≡ false
      → Distinct peers
      → 0 < config.mp_request_limit
      → 0 < s.brk
      → s.free_list ≡ null
      → Ensures
          (λ o t.
            OnSuccess
              (λ g u.
                (port : PortAttr) × Ready env host
                  (addresses config.mp_request_limit s.brk)
                  peers
                  (is_on (read_settings host.getenv init_flags).mp_enable_ud)
                  false
                  port
                  g
                  u)
              o
              t)
          Unit
          (mp_init env host peers init_flags gpu_id fuel s)
  unfolding with_ipc
  mp_init-Ready peers init_flags gpu_id fuel s no_ipc distinct lim pos empty =
      started-Ready _ peers gpu_id fuel s init_flags distinct lim pos empty λ port g u ready.
        branch _ g.config.mp_enable_ipc _ _ u
          (λ on. absurd (ground (arith, sym on ∙ ready.mode ∙ no_ipc)))
          (λ off. done (
            port,
            subst
                (λ b.
                  Ready env host (addresses config.mp_request_limit s.brk) peers
                    (is_on (read_settings host.getenv init_flags).mp_enable_ud) b port g u)
                no_ipc ready,
          ))

  -- Under the same conditions, but with the IPC path enabled and a gethostname that succeeds, by
  -- returning 0, mp_init never returns MP_SUCCESS: it returns MP_FAILURE or faults.
  pub mp_init-ipc :
      (peers : List ℕ) (init_flags gpu_id fuel : ℕ) (s : State W)
      → is_on (read_settings host.getenv init_flags).mp_enable_ipc ≡ true
      → ((w : W) → (host.gethostname w).0.0 ≡ 0)
      → Distinct peers
      → 0 < config.mp_request_limit
      → 0 < s.brk
      → s.free_list ≡ null
      → Ensures (λ o t. o ≡ none) Unit (mp_init env host peers init_flags gpu_id fuel s)
  unfolding with_ipc connect_ipc
  mp_init-ipc peers init_flags gpu_id fuel s ipc named distinct lim pos empty =
      Ensures-mono
        (started-Ready (λ _ _. ⊥) peers gpu_id fuel s init_flags distinct lim pos empty
          λ port g u ready.
            branch _ g.config.mp_enable_ipc _ _ u
              (λ on. elim (Bool-cases (env.malloc u.world).0) [
                | inr refused ↦ rw refused (done tt)
                | inl given ↦ rw (given, named (env.malloc u.world).1) (done tt)
              ])
              (λ off. absurd (ground (arith, sym off ∙ ready.mode ∙ ipc))))
        (λ f. f) λ o t p. failed_lem o t p
