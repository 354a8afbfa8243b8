-- ===== src/Daemon/Invariant.antt =====
-- What holds of the daemon's manager, whatever happens to it.
use kotakpasir.Base.{
  ◌≡◌, ◌⊎◌, inl, inr, sym, ap, subst, ◌∙◌, false, some, List, [], ◌∷◌, String, ◌==◌, string_eq, ok,
  arith, Result-cases, Bool-cases,
}
use kotakpasir.Base.Int.{ℤ}
use kotakpasir.Policy.{Policy}
use kotakpasir.Policy.Load.{load, load-IsValid}
use kotakpasir.Policy.Validate.Laws.{IsValid}
use kotakpasir.Runtime.{Runtime}
use kotakpasir.Sandbox.{Store}
use kotakpasir.Sandbox.Contract.{Contract}
use kotakpasir.Manager.{Manager}
use kotakpasir.Manager.Lifecycle.{sweep}
use kotakpasir.Manager.Reload
use kotakpasir.Manager.Reload.{new_manager, replace_policy}
use kotakpasir.Manager.Reload.Atomic.{replace_policy_outcome}
use kotakpasir.Manager.Upkeep.{Keeps, sweep-Keeps}
use kotakpasir.Api.{Codec}
use kotakpasir.Api.Server.{Settings, serve}
use kotakpasir.Api.Upkeep.{serve-Keeps}
use kotakpasir.Daemon.{
  PolicyConfig, Files, Event, requested, ticked, hung_up, check_required, first_policy, boot,
  reload, react, run,
}

module _ {R : Runtime} {S : Store} where
  pub reload_loaded :
      (f : Files) (path : String) (m : Manager R S) (pol : Policy)
      → (path == "") ≡ false
      → load f.read f.parse path ≡ ok pol
      → reload f path m ≡ (replace_policy (some pol) m).1
  unfolding reload
  reload_loaded f path m pol named h = ground (arith, named, h)

  -- A SIGHUP either leaves everything but the runtime's state as it was, or sets the policy that
  -- `Load` has read, which is valid, and keeps the store and the log buffers.
  pub reload_outcome :
      (f : Files) (path : String) (m : Manager R S)
      → let n = reload f path m in
        (n ≡ record m { world = n.world })
        ⊎ ((pol : Policy) × (load f.read f.parse path ≡ ok pol)
            × IsValid pol
            × (n.policy ≡ pol)
            × (n.db ≡ m.db)
            × (n.logs ≡ m.logs))
  unfolding reload
  reload_outcome f path m = elim (Bool-cases (path == "")) [
    | inl blank ↦ inl (ground (arith, blank))
    | inr named ↦ elim (Result-cases (load f.read f.parse path)) [
      | inr (e, h) ↦ inl (ground (arith, named, h))
      | inl (pol, h) ↦
          rw (reload_loaded f path m pol named h) (elim (replace_policy_outcome pol path m) [
            | inl (_, _, (set, _)) ↦ inr (
              pol,
              h,
              load-IsValid f.read f.parse path pol h,
              ap (λ (n : Manager R S). n.policy) set,
              ap (λ (n : Manager R S). n.db) set,
              ap (λ (n : Manager R S). n.logs) set,
            )
            | inr (e, _, same) ↦ inl same
          ])
    ]
  ]

  start_policy :
      (m : Manager R S) → ((Reload.start m).1.policy ≡ m.policy) × ((Reload.start m).1.db ≡ m.db)
  unfolding Reload.start
  start_policy m = ground arith

  -- Where the daemon comes up, its policy has been loaded and its manager started.
  pub boot_started :
      (f : Files) (cfg : PolicyConfig) (log_cap : ℤ) (world : R.State) (db : S.State)
      (m : Manager R S)
      → boot f cfg log_cap world db ≡ ok m
      → (pol : Policy) × (load f.read f.parse cfg.file ≡ ok pol)
        × (m ≡ (Reload.start (new_manager world db (some pol) log_cap)).1)
  unfolding boot first_policy
  boot_started f cfg log_cap world db m h = elim (Result-cases (check_required f cfg)) [
    | inr (e, q) ↦ ground (arith, h, q)
    | inl (_, q) ↦ elim (Result-cases (load f.read f.parse cfg.file)) [
      | inr (e, l) ↦ ground (arith, h, q, l)
      | inl (pol, l) ↦ (pol, l, ground (arith, h, q, l))
    ]
  ]

module _ {R : Runtime} {S : Store} (C : Contract S) where
  -- The policy is one that `Validate` accepts, and the store is good.
  pub record IsSound (m : Manager R S) : Type 0 where
    pub good : C.IsGood m.db
    pub valid : IsValid m.policy

  boot-IsSound :
      (f : Files) (cfg : PolicyConfig) (log_cap : ℤ) (world : R.State) (db : S.State)
      (m : Manager R S)
      → C.IsGood db
      → boot f cfg log_cap world db ≡ ok m
      → IsSound m
  unfolding new_manager
  boot-IsSound f cfg log_cap world db m g h =
      let (pol, l, same) = boot_started f cfg log_cap world db m h in
      let (policy, kept) = start_policy (new_manager world db (some pol) log_cap) in
      record {
        good = subst C.IsGood (sym (ap (λ (n : Manager R S). n.db) same ∙ kept)) g;
        valid =
            subst IsValid (sym (ap (λ (n : Manager R S). n.policy) same ∙ policy))
              (load-IsValid f.read f.parse cfg.file pol l);
      }

  Keeps-IsSound : (m n : Manager R S) → IsSound m → Keeps C m n → IsSound n
  Keeps-IsSound m n sound kept = record {
    good = kept.good;
    valid = subst IsValid (sym kept.policy) sound.valid;
  }

  reload-IsSound :
      (f : Files) (path : String) (m : Manager R S) → IsSound m → IsSound (reload f path m)
  reload-IsSound f path m sound = elim (reload_outcome f path m) [
    | inl same ↦ subst IsSound (sym same) (record { good = sound.good; valid = sound.valid })
    | inr (pol, _, valid, set, db, _) ↦ record {
      good = subst C.IsGood (sym db) sound.good;
      valid = subst IsValid (sym set) valid;
    }
  ]

module _ (K : Codec) {R : Runtime} {S : Store} (C : Contract S) where
  react-IsSound :
      (s : Settings K.Body) (cfg : PolicyConfig) (e : Event K.Body) (m : Manager R S)
      → IsSound C m
      → IsSound C (react K s cfg e m)
  unfolding react
  react-IsSound s cfg (requested at q) m sound =
      Keeps-IsSound C m (serve K s at q m).1 sound (serve-Keeps K C s at q m sound.good)
  react-IsSound s cfg (ticked now) m sound =
      Keeps-IsSound C m (sweep now m) sound (sweep-Keeps C now m sound.good)
  react-IsSound s cfg (hung_up f) m sound = reload-IsSound C f cfg.file m sound

  run-IsSound :
      (s : Settings K.Body) (cfg : PolicyConfig) (es : List (Event K.Body)) (m : Manager R S)
      → IsSound C m
      → IsSound C (run K s cfg es m)
  unfolding run
  run-IsSound s cfg [] m sound = sound
  run-IsSound s cfg (e ∷ es) m sound =
      run-IsSound s cfg es (react K s cfg e m) (react-IsSound s cfg e m sound)

  -- From its start on, whatever requests, ticks of the reaper and signals come in whatever order, the
  -- daemon's policy is one that `Validate` accepts and its store is good, if it was good at the start.
  pub run-boot-IsSound :
      (f : Files) (s : Settings K.Body) (cfg : PolicyConfig) (log_cap : ℤ) (world : R.State)
      (db : S.State) (es : List (Event K.Body)) (m : Manager R S)
      → C.IsGood db
      → boot f cfg log_cap world db ≡ ok m
      → IsSound C (run K s cfg es m)
  run-boot-IsSound f s cfg log_cap world db es m g h =
      run-IsSound s cfg es m (boot-IsSound C f cfg log_cap world db m g h)
