-- ===== src/Pool.antt =====
-- internal/pool/pool.go: the warm containers of one image.
-- The head of `avail` is the end of the slice, which `Get` takes. `signal` is the channel
-- `refillCh`, and `refilling` tells whether the background refiller was launched.
pub mod Filling
pub mod Ownership
mod Tests
use kotakpasir.Base.{
  ℕ, zero, suc, ◌-◌, Bool, true, false, ◌||◌, List, [], ◌∷◌, String, reverse, length, leb,
  if◌then◌else◌, Option, none, some, Error, message, Result, ok, err,
}
use kotakpasir.Base.Dict.{Dict, insert}
use kotakpasir.Base.Int.{ℤ, to_ℕ}
use kotakpasir.Runtime.{Runtime, Spec, Handle}

pub record Config : Type 0 where
  pub image : String
  pub target : ℤ

pub record Pool : Type 0 where
  pub cfg : Config
  pub spec : Spec
  pub avail : List String
  pub closed : Bool
  pub signal : Bool
  pub refilling : Bool

abbrev pub label_role : String
label_role = "kotakpasir.role"

abbrev pub label_pool_image : String
label_pool_image = "kotakpasir.pool-image"

abbrev pub role_pool_warm : String
role_pool_warm = "pool-warm"

-- `New`
unfoldable pub new : Config → Spec → Pool
unfolding insert
new cfg spec = record {
  cfg = cfg;
  spec = record spec {
    labels =
        insert "kotakpasir.managed" "true"
          (insert label_pool_image cfg.image (insert label_role role_pool_warm spec.labels));
  };
  avail = [];
  closed = false;
  signal = false;
  refilling = false;
}

-- `Get`. The send on `refillCh` leaves the one place of the channel full either way.
unfoldable pub get : Pool → Option String × Pool
get p = if p.closed then (none, p) else elim p.avail [
  | [] ↦ (none, p)
  | id ∷ rest ↦ (some id, record p { avail = rest; signal = true })
]

-- `Available`
abbrev pub available : Pool → ℕ
available p = length p.avail

-- Why the loop of the refiller ended.
pub data Stop : Type 0 where
  full : Stop
  failed : Error → Stop
  out_of_fuel : Stop

-- The part of `spawn` under the lock: `none` when the pool was closed meanwhile.
unfoldable pub take_in : String → Pool → Option Pool
take_in id p = if p.closed then none else some (record p { avail = id ∷ p.avail })

-- The part of `Shutdown` under the lock: the ids to remove, in the order of the slice.
unfoldable pub close : Pool → Option (List String × Pool)
close p = if p.closed then none else some (reverse p.avail, record p { closed = true; avail = [] })

module _ (R : Runtime) where
  -- What `spawn` does with a container that it has created, under the lock and behind it.
  unfoldable pub land : Pool → Handle → R.State → Result (Unit {0}) × Pool × R.State
  unfolding take_in
  land p handle s = elim (take_in handle.id p) [
    | none ↦ (err (message "pool closed during spawn" []), p, (R.remove handle.id s).1)
    | some q ↦ (ok tt, q, s)
  ]

  -- `spawn`, with nothing between the creation and the lock.
  unfoldable pub spawn : Pool → R.State → Result (Unit {0}) × Pool × R.State
  unfolding land
  spawn p s =
      let (created, s') = R.create p.spec s in
      elim created [ err e ↦ (err e, p, s') | ok handle ↦ land p handle s' ]

  -- The loop `for range p.cfg.Target` of `Start`.
  unfoldable pub start_loop : ℕ → Pool → R.State → Result (Unit {0}) × Pool × R.State
  start_loop zero p s = (ok tt, record p { refilling = true }, s)
  start_loop (suc n) p s =
      let (spawned, p', s') = spawn p s in
      elim spawned [ err e ↦ (err e, p', s') | ok _ ↦ start_loop n p' s' ]

  -- `Start`
  unfoldable pub start : Pool → R.State → Result (Unit {0}) × Pool × R.State
  unfolding start_loop
  start p s = start_loop (to_ℕ p.cfg.target) p s

  -- The inner loop of `refillLoop`, on fuel, after a signal was taken from the channel.
  unfoldable pub refill_loop : ℕ → Pool → R.State → Stop × Pool × R.State
  refill_loop zero p s = (out_of_fuel, p, s)
  refill_loop (suc fuel) p s =
      let (spawned, p', s') = spawn p s in
      let rest : Stop × Pool × R.State = elim spawned [
        | err e ↦ (failed e, p', s')
        | ok _ ↦ refill_loop fuel p' s'
      ] in
      if p.closed || leb (to_ℕ p.cfg.target) (length p.avail) then (full, p, s) else rest

  -- One round of `refillLoop`: it takes the signal, and spawns until the pool is full.
  unfoldable pub refill : Pool → R.State → Stop × Pool × R.State
  unfolding refill_loop
  refill p s =
      if p.signal
      then refill_loop (suc (to_ℕ p.cfg.target)) (record p { signal = false }) s
      else (full, p, s)

  -- The loop over the ids in `Shutdown`, with the errors that `errors.Join` joins.
  unfoldable pub remove_all : List String → R.State → List Error × R.State
  remove_all [] s = ([], s)
  remove_all (id ∷ ids) s =
      let (removed, s') = R.remove id s in
      let (errs, s'') = remove_all ids s' in (elim removed [ ok _ ↦ errs | err e ↦ e ∷ errs ], s'')

  -- `Shutdown`. No error is the empty list.
  unfoldable pub shutdown : Pool → R.State → List Error × Pool × R.State
  unfolding remove_all close
  shutdown p s = elim (close p) [
    | none ↦ ([], p, s)
    | some (ids, q) ↦ let (errs, s') = remove_all ids s in (errs, q, s')
  ]
