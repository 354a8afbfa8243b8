-- ===== src/Manager/Health.antt =====
-- internal/sandbox/manager.go: `Health`.
pub mod Status
use kotakpasir.Base.{
  ℕ, zero, suc, Bool, true, false, not, ◌&&◌, ◌||◌, Option, none, some, List, [], ◌∷◌, String, ◌<>◌,
  if◌then◌else◌, ltb, ◌==◌, Error, message, Result, ok, err,
}
use kotakpasir.Base.Dict.{Dict, insert}
use kotakpasir.Base.Int.{ℤ, pos, int_eq}
use kotakpasir.Pool
use kotakpasir.Pool.{Pool}
use kotakpasir.Runtime.{Runtime}
use kotakpasir.Sandbox.{Store}
use kotakpasir.Manager.{Manager}

-- A check, with its error for the detail.
pub record HealthCheck : Type 0 where
  pub is_ok : Bool
  pub detail : Option Error

pub record HealthReport : Type 0 where
  pub status : String
  pub checks : Dict HealthCheck

-- The variables of `Health` that its closure `addCheck` writes.
pub record Tally : Type 0 where
  pub checks : Dict HealthCheck
  pub overall : Bool

-- `addCheck`
unfoldable pub add_check : String → Option Error → Bool → Tally → Tally
add_check name e fine t =
    let c : HealthCheck = elim e [
      | none ↦ record { is_ok = fine; detail = none }
      | some x ↦ record { is_ok = false; detail = some x }
    ] in
    record { checks = insert name c t.checks; overall = t.overall && c.is_ok }

-- The error of a `Ping`; a backend that has none is assumed to be reachable.
abbrev pub ping_error {ℓ} : {St : Type ℓ} → Option (St → Result (Unit {0})) → St → Option Error
ping_error none s = none
ping_error (some ping) s = elim (ping s) [ ok _ ↦ none | err e ↦ some e ]

-- `p.Available() > 0 || p.Target() == 0`
abbrev pub is_warm : Pool → Bool
is_warm p = ltb 0 (Pool.available p) || p.cfg.target == pos 0

-- The loop over the pools.
unfoldable pub check_pools : Dict Pool → Tally → Tally
check_pools [] t = t
check_pools ((image, p) ∷ pools) t = check_pools pools (
    add_check ("pool:" <> image) (if is_warm p then none else some (message "0/%d warm" []))
      (is_warm p) t)

module _ {R : Runtime} {S : Store} where
  -- `Health`
  unfoldable pub health : Manager R S → HealthReport
  unfolding check_pools add_check
  health m =
      let start : Tally = record { checks = []; overall = true } in
      let stored = add_check "store" (ping_error S.ping m.db) true start in
      let ran = add_check "runtime" (ping_error R.ping m.world) true stored in
      let t = check_pools m.pools ran in
      record { status = if t.overall then "ok" else "degraded"; checks = t.checks }
