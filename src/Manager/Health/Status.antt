-- ===== src/Manager/Health/Status.antt =====
-- When a manager reports that it is healthy.
use kotakpasir.Base.{
  ne_of_==, ◌≡◌, ◌≢◌, refl, ◌↔◌, ◌<>◌, if◌then◌else◌, message, true, none, some, [], ◌∷◌, String,
  arith, string_eq,
}
use kotakpasir.Base.Dict.{Dict}
use kotakpasir.Pool.{Pool}
use kotakpasir.Runtime.{Runtime}
use kotakpasir.Sandbox.{Store}
use kotakpasir.Manager.{Manager}
use kotakpasir.Manager.Health.{Tally, add_check, check_pools, is_warm, ping_error, health}

-- Every pool has a warm container or wants none.
unfoldable pub AllWarm : Dict Pool → Type 0
AllWarm [] = Unit
AllWarm ((image, p) ∷ pools) = (is_warm p ≡ true) × AllWarm pools

unhealthy : ◌≢◌ {A = String} "degraded" "ok"
unfolding string_eq
unhealthy = ne_of_== "degraded" "ok" refl

check_pools_overall :
    (pools : Dict Pool) (t : Tally)
    → ((check_pools pools t).overall ≡ true) ↔ ((t.overall ≡ true) × AllWarm pools)
unfolding check_pools add_check AllWarm
check_pools_overall [] t = ground arith
check_pools_overall ((image, p) ∷ pools) t = ground (
  arith,
  check_pools_overall pools (
      add_check ("pool:" <> image) (if is_warm p then none else some (message "0/%d warm" []))
        (is_warm p) t),
)

module _ {R : Runtime} {S : Store} where
  -- The report's status is "ok" exactly when neither the store's nor the runtime's ping fails and
  -- every pool has a warm container or wants none.
  pub health_iff :
      (m : Manager R S)
      → ((health m).status ≡ "ok")
        ↔ ((ping_error S.ping m.db ≡ none) × (ping_error R.ping m.world ≡ none) × AllWarm m.pools)
  unfolding health add_check
  health_iff m =
      let start : Tally = record { checks = []; overall = true } in
      let stored = add_check "store" (ping_error S.ping m.db) true start in
      let ran = add_check "runtime" (ping_error R.ping m.world) true stored in
      ground (arith, unhealthy, check_pools_overall m.pools ran)
