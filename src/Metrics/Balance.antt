-- ===== src/Metrics/Balance.antt =====
-- Every sandbox that is created is counted as a hit or as a miss of its image's pool.
pub mod Uptime
use kotakpasir.Base.{
  ℕ, suc, ◌+◌, ◌≡◌, ◌⊎◌, refl, sym, ap, subst, ◌∙◌, inl, inr, Bool, true, false, ◌&&◌, none, some,
  List, [], ◌∷◌, String, if◌then◌else◌, ◌==◌, string_eq, string_dec, ok, err, is_empty, arith,
  ==_refl, Result-cases, Option-cases, Bool-cases,
}
use kotakpasir.Base.Int.{ℤ}
use kotakpasir.Runtime.{Runtime}
use kotakpasir.Sandbox.{Sandbox, Store, CreateOptions, ExecOptions}
use kotakpasir.Policy.{Resolved}
use kotakpasir.Policy.Resolve.{resolve}
use kotakpasir.Manager.{
  Manager, Event, sandbox_created, pool_hit, pool_miss, set_sandbox_active, reaper_swept,
  refresh_active, drop_log_buffer, log_buffer_for,
}
use kotakpasir.Manager.Pools.{try_claim}
use kotakpasir.Manager.Create.{create, enter, new_sandbox, request_of}
use kotakpasir.Manager.Lifecycle.{
  get, list, stop, delete, proxy_addr, sweep, sweep_loop, expired_before,
}
use kotakpasir.Manager.Logs.{LogsOptions, exec, logs}
use kotakpasir.Metrics.Totals.{hits, misses}

-- The successful creations with an image, whatever the profile.
abbrev pub successes : String → List Event → ℕ
successes i [] = 0
successes i (sandbox_created i' p o ∷ es) =
    let n = successes i es in if i' == i && o == "success" then suc n else n
successes i (_ ∷ es) = successes i es

abbrev pub IsBalanced : String → List Event → Type 0
IsBalanced i es = hits i es + misses i es ≡ successes i es

denied_fails : ◌==◌ {A = String} "policy_denied" "success" ≡ false
unfolding string_eq string_dec
denied_fails = refl

error_fails : ◌==◌ {A = String} "runtime_error" "success" ≡ false
unfolding string_eq string_dec
error_fails = refl

module _ (i : String) {R : Runtime} {S : Store} where
  abbrev pub Balances : Manager R S → Manager R S → Type 0
  Balances m n = IsBalanced i m.metrics → IsBalanced i n.metrics

  refresh-Balances : (m : Manager R S) → Balances m (refresh_active m)
  unfolding refresh_active
  refresh-Balances m h = ground (arith, h)

  try_claim_metrics : (r : Resolved) (m : Manager R S) → (try_claim r m).1.metrics ≡ m.metrics
  unfolding try_claim
  try_claim_metrics r m = ground arith

  pub create-Balances :
      (opts : CreateOptions) (id : String) (now : ℕ) (m : Manager R S)
      → Balances m (create opts id now m).1
  unfolding create enter new_sandbox refresh_active
  create-Balances opts id now m h = elim (Result-cases (resolve m.policy (request_of opts))) [
    | inr (e, q) ↦ ground (arith, h, q, denied_fails)
    | inl (r, q) ↦
        ground (arith, h, q, try_claim_metrics r m, error_fails, ==_refl {A = String} "success")
  ]

  pub delete-Balances : (id : String) (m : Manager R S) → Balances m (delete id m).1
  unfolding delete drop_log_buffer refresh_active
  delete-Balances id m h = ground (arith, h)

  pub stop-Balances : (id : String) (m : Manager R S) → Balances m (stop id m).1
  unfolding stop refresh_active
  stop-Balances id m h = ground (arith, h)

  pub exec-Balances :
      (id : String) (opts : ExecOptions) (now : ℕ) (m : Manager R S)
      → Balances m (exec id opts now m).1
  unfolding exec log_buffer_for
  exec-Balances id opts now m h = ground (arith, h)

  pub logs-Balances :
      (id : String) (opts : LogsOptions) (m : Manager R S) → Balances m (logs id opts m).1
  unfolding logs log_buffer_for
  logs-Balances id opts m h = ground (arith, h)

  sweep_loop-Balances : (sbs : List Sandbox) (m : Manager R S) → Balances m (sweep_loop sbs m).1
  unfolding sweep_loop
  sweep_loop-Balances [] m h = h
  sweep_loop-Balances (sb ∷ sbs) m h =
      sweep_loop-Balances sbs (delete sb.id m).1 (delete-Balances sb.id m h)

  pub sweep-Balances : (now : ℕ) (m : Manager R S) → Balances m (sweep now m)
  unfolding sweep expired_before
  sweep-Balances now m h = elim (Result-cases (S.expired_before now m.db).0) [
    | inl (sbs, e) ↦
        let n : Manager R S = record m { db = (S.expired_before now m.db).1 } in
        ground (arith, h, e, sweep_loop-Balances sbs n h)
    | inr (x, e) ↦ ground (arith, h, e)
  ]
