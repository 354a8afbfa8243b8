-- ===== src/Manager/Lifecycle.antt =====
-- internal/sandbox/manager.go: `Get`, `List`, `ExpiredBefore`, `ProxyAddr`, `Stop` and `Delete`;
-- and internal/sandbox/reaper.go.
pub mod Outcome
pub mod Sweep
pub mod Reaping
use kotakpasir.Base.{
  ℕ, zero, suc, Bool, true, false, not, Option, none, some, List, [], ◌∷◌, String, if◌then◌else◌,
  ◌==◌, string_eq, ltb, Error, sentinel, is_error, Result, ok, err,
}
use kotakpasir.Base.Int.{ℤ, is_pos}
use kotakpasir.Base.State.{Method, return, fail, attempt, modify, ◌>>=◌, ◌>>◌}
use kotakpasir.Runtime.{Runtime, no_proxy}
use kotakpasir.Sandbox.{Sandbox, Store, stopped, not_found}
use kotakpasir.Manager.{
  Manager, reaper_swept, record_event, on_store, on_runtime, drop_log_buffer, refresh_active,
}

module _ {R : Runtime} {S : Store} where
  -- `Get`
  unfoldable pub get : String → Method (Manager R S) Sandbox
  get id = on_store (S.get id)

  -- `List`
  unfoldable pub list : Method (Manager R S) (List Sandbox)
  list = on_store S.list

  -- `ExpiredBefore`
  unfoldable pub expired_before : ℕ → Method (Manager R S) (List Sandbox)
  expired_before t = on_store (S.expired_before t)

  -- `ProxyAddr`
  unfoldable pub proxy_addr : String → Method (Manager R S) String
  unfolding get
  proxy_addr id = do
    sb ← get id
    elim R.proxy_addr [
      | none ↦ fail (sentinel no_proxy)
      | some address ↦ λ m. (address sb.id m.world, m)
    ]

  -- `Stop`
  unfoldable pub stop : String → Method (Manager R S) (Unit {0})
  unfolding get
  stop id = do
    sb ← get id
    on_runtime (R.stop sb.runtime_id)
    on_store (S.put (record sb { state = stopped }))
    modify refresh_active

  -- `if sb.RuntimeID != "" { _ = m.rt.Remove(...) }`
  remove_container : Sandbox → Manager R S → Manager R S
  remove_container sb m =
      if sb.runtime_id == "" then m else record m { world = (R.remove sb.runtime_id m.world).1 }

  -- `Delete`
  unfoldable pub delete : String → Method (Manager R S) (Unit {0})
  unfolding get remove_container
  delete id = do
    sb ← get id
    modify (remove_container sb)
    on_store (S.delete id)
    modify (drop_log_buffer id)
    modify refresh_active

  -- The loop of `(*Reaper).sweep`, which counts what it swept.
  unfoldable pub sweep_loop : List Sandbox → Manager R S → ℕ × Manager R S
  unfolding delete
  sweep_loop [] m = (0, m)
  sweep_loop (sb ∷ sbs) m =
      let (r, m') = delete sb.id m in
      let (n, m'') = sweep_loop sbs m' in
      (elim r [ ok _ ↦ suc n | err e ↦ if is_error e not_found then suc n else n ], m'')

  -- `(*Reaper).sweep`
  unfoldable pub sweep : ℕ → Manager R S → Manager R S
  unfolding sweep_loop expired_before
  sweep now m =
      let (r, m') = expired_before now m in
      elim r [
        | err _ ↦ m'
        | ok expired ↦
            let (swept, m'') = sweep_loop expired m' in
            if ltb 0 swept then record_event (reaper_swept swept) m'' else m''
      ]

  -- `(*Reaper).Run`: a sweep at each tick, until the context is done, and none where the interval is not
  -- positive.
  unfoldable pub run_reaper : ℤ → List ℕ → Manager R S → Manager R S
  run_reaper interval [] m = m
  run_reaper interval (now ∷ ticks) m =
      let rest = run_reaper interval ticks (sweep now m) in if is_pos interval then rest else m
