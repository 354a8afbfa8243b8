-- ===== src/Manager/Reload.antt =====
-- internal/sandbox/manager.go: `NewManager`, `Start`, `ReplacePolicy` and `Shutdown`.
-- A loop over a map goes in the order of the list. The pools that `ReplacePolicy` retires are shut
-- down in the background; here that happens at its end.
pub mod Atomic
use kotakpasir.Base.{
  ℕ, zero, suc, Bool, true, false, not, Option, none, some, List, [], ◌∷◌, ◌++◌, map, String,
  if◌then◌else◌, ◌==◌, string_eq, reverse, message, wrap, Error, Result, ok, err,
}
use kotakpasir.Base.Dict.{Dict, lookup}
use kotakpasir.Base.Int.{ℤ, pos, int_eq}
use kotakpasir.Base.State.{Method}
use kotakpasir.Policy.{Policy, Image, default_policy}
use kotakpasir.Policy.Validate.{validate}
use kotakpasir.Pool
use kotakpasir.Pool.{Pool}
use kotakpasir.Runtime.{Runtime}
use kotakpasir.Sandbox.{Store}
use kotakpasir.Manager.{Manager, default_log_buffer_bytes}
use kotakpasir.Manager.Pools.{build_pools, same_pool_spec}

-- An entry of `merged`, and whether it is one of `toStart`.
pub record Merged : Type 0 where
  pub pool : Pool
  pub fresh : Bool

-- The old pool of an image, if it warms the same spec, and the new one otherwise.
abbrev pub choose : Option Pool → Pool → Merged
choose none p = record { pool = p; fresh = true }
choose (some o) p =
    if same_pool_spec o p
    then record { pool = o; fresh = false }
    else record { pool = p; fresh = true }

-- The loop over `desired`.
unfoldable pub merge : Dict Pool → Dict Pool → Dict Merged
merge old [] = []
merge old ((image, p) ∷ desired) = (image, choose (lookup image old) p) ∷ merge old desired

abbrev pub is_kept : Option Merged → Bool
is_kept none = false
is_kept (some e) = not e.fresh

-- The loop over `oldPools`: `toShutdown`.
unfoldable pub retired : Dict Merged → Dict Pool → List Pool
retired merged [] = []
retired merged ((image, p) ∷ old) =
    let rest = retired merged old in if is_kept (lookup image merged) then rest else p ∷ rest

-- `merged` as the manager's map of pools.
unfoldable pub pools_of : Dict Merged → Dict Pool
pools_of [] = []
pools_of ((image, e) ∷ merged) = (image, e.pool) ∷ pools_of merged

module _ (R : Runtime) where
  -- The loop over `toStart`: the map with the started pools in it, or the first error. The list
  -- is `started`, the latest first.
  unfoldable pub start_fresh :
      Dict Merged → List Pool → R.State → Result (Dict Pool) × List Pool × R.State
  start_fresh [] started s = (ok [], started, s)
  start_fresh ((image, e) ∷ merged) started s =
      let (r, p, s') = Pool.start R e.pool s in
      let as_is = start_fresh merged started s in
      let behind = start_fresh merged (p ∷ started) s' in
      if e.fresh
      then (elim r [
        | err x ↦ (err (wrap "warm pool %s: %w" (image ∷ []) x), started, s')
        | ok _ ↦ (
          elim behind.0 [ ok pools ↦ ok ((image, p) ∷ pools) | err x ↦ err x ],
          behind.1,
          behind.2,
        )
      ])
      else (
        elim as_is.0 [ ok pools ↦ ok ((image, e.pool) ∷ pools) | err x ↦ err x ],
        as_is.1,
        as_is.2,
      )

  -- `Shutdown` of each pool of a list, with the errors dropped.
  unfoldable pub shutdown_all : List Pool → R.State → R.State
  shutdown_all [] s = s
  shutdown_all (p ∷ pools) s = shutdown_all pools (Pool.shutdown R p s).2

  -- The loop over the images in `Start`.
  ensure_images :
      (String → R.State → Result Bool × R.State)
      → List Image
      → R.State
      → Result (Unit {0}) × R.State
  ensure_images ensure [] s = (ok tt, s)
  ensure_images ensure (img ∷ imgs) s =
      let (r, s') = ensure img.name s in
      elim r [
        | err e ↦ (err (wrap "ensure image %s: %w" (img.name ∷ []) e), s')
        | ok _ ↦ ensure_images ensure imgs s'
      ]

  -- The loop over the pools in `Start`: a pool that fails leaves the later ones as they are.
  start_pools : Dict Pool → R.State → Result (Unit {0}) × Dict Pool × R.State
  start_pools [] s = (ok tt, [], s)
  start_pools ((image, p) ∷ pools) s =
      let (r, p', s') = Pool.start R p s in
      elim r [
        | err e ↦ (err (wrap "pool %s: %w" (image ∷ []) e), (image, p') ∷ pools, s')
        | ok _ ↦ let (r', pools', s'') = start_pools pools s' in (r', (image, p') ∷ pools', s'')
      ]

  -- The loop of `Shutdown`. The error of a pool is a join, and each error in it gets the context.
  shutdown_pools : Dict Pool → R.State → List Error × Dict Pool × R.State
  shutdown_pools [] s = ([], [], s)
  shutdown_pools ((image, p) ∷ pools) s =
      let (errs, p', s') = Pool.shutdown R p s in
      let (rest, pools', s'') = shutdown_pools pools s' in
      (map (wrap "pool %s: %w" (image ∷ [])) errs ++ rest, (image, p') ∷ pools', s'')

module _ {R : Runtime} {S : Store} where
  -- `NewManager`: the policy and the log cap have defaults.
  unfoldable pub new_manager : R.State → S.State → Option Policy → ℤ → Manager R S
  new_manager world db pol log_cap =
      let chosen : Policy = elim pol [ none ↦ default_policy | some p ↦ p ] in
      record {
        world = world;
        db = db;
        policy = chosen;
        pools = build_pools chosen;
        started = false;
        metrics = [];
        log_cap = if log_cap == pos 0 then default_log_buffer_bytes else log_cap;
        logs = [];
      }

  -- `Start`
  unfoldable pub start : Method (Manager R S) (Unit {0})
  unfolding ensure_images start_pools
  start m =
      let cleaned : R.State = elim R.clean_pool_orphans [
        | none ↦ m.world
        | some clean ↦ (clean m.world).1
      ] in
      let ensured : Result (Unit {0}) × R.State = elim R.ensure_image [
        | none ↦ (ok tt, cleaned)
        | some ensure ↦ ensure_images R ensure m.policy.images cleaned
      ] in
      elim ensured.0 [
        | err e ↦ (err e, record m { world = ensured.1 })
        | ok _ ↦
            let (r, pools, world) = start_pools R m.pools ensured.1 in
            elim r [
              | err e ↦ (err e, record m { world = world; pools = pools })
              | ok _ ↦ (ok tt, record m { world = world; pools = pools; started = true })
            ]
      ]

  -- `ReplacePolicy` behind `Validate`.
  swap : Policy → Method (Manager R S) (Unit {0})
  swap pol m =
      let merged = merge m.pools (build_pools pol) in
      let (r, started, world) = start_fresh R merged [] m.world in
      let toggled = if m.started then r else ok (pools_of merged) in
      let warmed = if m.started then world else m.world in
      elim toggled [
        | err e ↦ (err e, record m { world = shutdown_all R (reverse started) world })
        | ok pools ↦ (
          ok tt,
          record m {
            policy = pol;
            pools = pools;
            world = shutdown_all R (retired merged m.pools) warmed;
          },
        )
      ]

  -- `ReplacePolicy`
  unfoldable pub replace_policy : Option Policy → Method (Manager R S) (Unit {0})
  unfolding swap
  replace_policy none m = (err (message "policy is required" []), m)
  replace_policy (some pol) m = elim (validate pol) [ err e ↦ (err e, m) | ok _ ↦ swap pol m ]

  -- `Shutdown`, with the errors that `errors.Join` joins.
  unfoldable pub shutdown : Manager R S → List Error × Manager R S
  unfolding shutdown_pools
  shutdown m =
      let (errs, pools, world) = shutdown_pools R m.pools m.world in
      (errs, record m { pools = pools; world = world })
