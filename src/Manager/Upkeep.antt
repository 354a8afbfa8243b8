-- ===== src/Manager/Upkeep.antt =====
-- What every method of the manager but `ReplacePolicy` keeps: a good store stays good, and the policy
-- is the one before.
use kotakpasir.Base.{
  ℕ, ◌≡◌, inl, inr, refl, ◌∙◌, List, [], ◌∷◌, String, Error, err, arith, Result-cases, string_eq,
}
use kotakpasir.Runtime.{Runtime}
use kotakpasir.Sandbox.{Sandbox, Store, CreateOptions, ExecOptions}
use kotakpasir.Sandbox.Contract.{Contract}
use kotakpasir.Manager.{Manager, refresh_active, drop_log_buffer, log_buffer_for}
use kotakpasir.Manager.Create.{create}
use kotakpasir.Manager.Create.Outcome.{create-IsConfined}
use kotakpasir.Manager.Lifecycle.{
  get, list, stop, delete, proxy_addr, sweep, sweep_loop, expired_before,
}
use kotakpasir.Manager.Lifecycle.Outcome.{delete-Deletes, stop-StopsTo}
use kotakpasir.Manager.Logs.{LogsOptions, exec, logs}

module _ {R : Runtime} {S : Store} (C : Contract S) where
  pub record Keeps (m n : Manager R S) : Type 0 where
    pub good : C.IsGood n.db
    pub policy : n.policy ≡ m.policy

  pub get-Keeps : (id : String) (m : Manager R S) → C.IsGood m.db → Keeps m (get id m).1
  unfolding get
  get-Keeps id m g = record { good = (C.get_law id id m.db g).0; policy = refl }

  pub list-Keeps : (m : Manager R S) → C.IsGood m.db → Keeps m (list m).1
  unfolding list
  list-Keeps m g = record { good = (C.list_law "" m.db g).0; policy = refl }

  pub proxy_addr-Keeps :
      (id : String) (m : Manager R S) → C.IsGood m.db → Keeps m (proxy_addr id m).1
  unfolding proxy_addr get
  proxy_addr-Keeps id m g = record {
    good = ground (arith, (C.get_law id id m.db g).0);
    policy = ground arith;
  }

  pub create-Keeps :
      (opts : CreateOptions) (id : String) (now : ℕ) (m : Manager R S)
      → C.IsGood m.db
      → Keeps m (create opts id now m).1
  create-Keeps opts id now m g =
      let c = create-IsConfined C opts id now m g in record { good = c.good; policy = c.policy }

  delete_policy : (id : String) (m : Manager R S) → (delete id m).1.policy ≡ m.policy
  unfolding delete drop_log_buffer refresh_active
  delete_policy id m = ground arith

  pub delete-Keeps : (id : String) (m : Manager R S) → C.IsGood m.db → Keeps m (delete id m).1
  delete-Keeps id m g = record {
    good = (delete-Deletes C id id m g).0;
    policy = delete_policy id m;
  }

  stop_policy : (id : String) (m : Manager R S) → (stop id m).1.policy ≡ m.policy
  unfolding stop refresh_active
  stop_policy id m = ground arith

  stop_err :
      (id : String) (m : Manager R S) (e : Error)
      → (S.get id m.db).0 ≡ err e
      → (stop id m).1.db ≡ (S.get id m.db).1
  unfolding stop
  stop_err id m e h = ground (arith, h)

  pub stop-Keeps : (id : String) (m : Manager R S) → C.IsGood m.db → Keeps m (stop id m).1
  unfolding get
  stop-Keeps id m g = elim (Result-cases (S.get id m.db).0) [
    | inl (sb, h) ↦ record { good = (stop-StopsTo C id id m sb g h).0; policy = stop_policy id m }
    | inr (e, h) ↦ record {
      good = rw (stop_err id m e h) (C.get_law id id m.db g).0;
      policy = stop_policy id m;
    }
  ]

  pub exec-Keeps :
      (id : String) (opts : ExecOptions) (now : ℕ) (m : Manager R S)
      → C.IsGood m.db
      → Keeps m (exec id opts now m).1
  unfolding exec log_buffer_for
  exec-Keeps id opts now m g = record {
    good = ground (arith, (C.get_law id id m.db g).0);
    policy = ground arith;
  }

  pub logs-Keeps :
      (id : String) (opts : LogsOptions) (m : Manager R S)
      → C.IsGood m.db
      → Keeps m (logs id opts m).1
  unfolding logs log_buffer_for
  logs-Keeps id opts m g = record {
    good = ground (arith, (C.get_law id id m.db g).0);
    policy = ground arith;
  }

  sweep_loop-Keeps :
      (sbs : List Sandbox) (m : Manager R S) → C.IsGood m.db → Keeps m (sweep_loop sbs m).1
  unfolding sweep_loop
  sweep_loop-Keeps [] m g = record { good = g; policy = refl }
  sweep_loop-Keeps (sb ∷ sbs) m g =
      let first = delete-Keeps sb.id m g in
      let rest = sweep_loop-Keeps sbs (delete sb.id m).1 first.good in
      record { good = rest.good; policy = rest.policy ∙ first.policy }

  pub sweep-Keeps : (now : ℕ) (m : Manager R S) → C.IsGood m.db → Keeps m (sweep now m)
  unfolding sweep expired_before
  sweep-Keeps now m g = elim (Result-cases (S.expired_before now m.db).0) [
    | inl (sbs, h) ↦
        let n : Manager R S = record m { db = (S.expired_before now m.db).1 } in
        let swept = sweep_loop-Keeps sbs n (C.expired_before_law now "" m.db g).0 in
        ground (arith, h, swept.good, swept.policy)
    | inr (e, h) ↦ ground (arith, h, (C.expired_before_law now "" m.db g).0)
  ]
