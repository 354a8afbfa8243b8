-- ===== src/Manager/Reload/Atomic.antt =====
-- What `ReplacePolicy` changes when it succeeds and when it fails.
use kotakpasir.Base.{
  ◌≡◌, refl, ◌⊎◌, inl, inr, Option, none, some, List, [], ◌∷◌, String, if◌then◌else◌, Error, ok,
  err, arith, Result-cases, Bool, Bool-cases, true, false, subst, sym, ap, ◌∙◌,
}
use kotakpasir.Base.Dict.{Dict, lookup}
use mathlib.Core.Option
use kotakpasir.Policy.{Policy}
use kotakpasir.Policy.Validate.{validate}
use kotakpasir.Pool
use kotakpasir.Pool.{Pool}
use kotakpasir.Runtime.{Runtime}
use kotakpasir.Sandbox.{Store}
use kotakpasir.Manager.{Manager}
use kotakpasir.Manager.Pools.{build_pools, same_pool_spec}
use kotakpasir.Manager.Reload.{Merged, choose, merge, pools_of, start_fresh, swap, replace_policy}

-- What stands for an image after the merge: the old pool, when there is one that warms the same
-- containers, and else the new one.
abbrev pub kept_or_new : Option Pool → Option Pool → Option Merged
kept_or_new before none = none
kept_or_new before (some p) = some (choose before p)

lookup-merge :
    (image : String) (old desired : Dict Pool)
    → lookup image (merge old desired) ≡ kept_or_new (lookup image old) (lookup image desired)
unfolding lookup merge
lookup-merge image old [] = refl
lookup-merge image old ((k, p) ∷ desired) = ground (arith, lookup-merge image old desired)

-- The pool that the manager has for an entry of the merge, once the fresh ones are started.
abbrev pub Brought : (R : Runtime) → Option Merged → Option Pool → Type 0
Brought R none p = p ≡ none
Brought R (some e) p =
    if e.fresh
    then ((s : R.State) × ((Pool.start R e.pool s).0 ≡ ok tt)
        × (p ≡ some (Pool.start R e.pool s).1))
    else (p ≡ some e.pool)

module _ (R : Runtime) where
  start_fresh-Brought :
      (image : String) (merged : Dict Merged) (started : List Pool) (s : R.State)
      (pools : Dict Pool)
      → (start_fresh R merged started s).0 ≡ ok pools
      → Brought R (lookup image merged) (lookup image pools)
  unfolding lookup start_fresh
  start_fresh-Brought image [] started s pools h = ground (arith, h)
  start_fresh-Brought image ((k, e) ∷ merged) started s pools h =
      let (r, p, s') = Pool.start R e.pool s in
      elim (Result-cases (start_fresh R merged started s).0) [
        | inl (rest, q) ↦ elim (Result-cases (start_fresh R merged (p ∷ started) s').0) [
          | inl (rest', q') ↦ ground (
            arith,
            h,
            q,
            q',
            start_fresh-Brought image merged started s rest q,
            start_fresh-Brought image merged (p ∷ started) s' rest' q',
          )
          | inr (x, q') ↦
              ground (arith, h, q, q', start_fresh-Brought image merged started s rest q)
        ]
        | inr (x, q) ↦ elim (Result-cases (start_fresh R merged (p ∷ started) s').0) [
          | inl (rest', q') ↦
              ground (arith, h, q, q', start_fresh-Brought image merged (p ∷ started) s' rest' q')
          | inr (y, q') ↦ ground (arith, h, q, q')
        ]
      ]

lookup-pools_of :
    (image : String) (merged : Dict Merged)
    → lookup image (pools_of merged) ≡ Option.map (λ e. e.pool) (lookup image merged)
unfolding lookup pools_of
lookup-pools_of image [] = refl
lookup-pools_of image ((k, e) ∷ merged) = ground (arith, lookup-pools_of image merged)

-- Two pools of one size for one image, whose containers have the same spec.
abbrev pub IsSame : Pool → Pool → Type 0
IsSame a b = (a.cfg.image ≡ b.cfg.image) × (a.cfg.target ≡ b.cfg.target) × (a.spec ≡ b.spec)

abbrev pub IsOther : Option Pool → Pool → Type 0
IsOther before p = (before ≡ none) ⊎ ((old : Pool) × (before ≡ some old) × (¬ IsSame old p))

-- A pool in its first state, where the manager is not running, and behind a `Start` without an error else.
abbrev pub IsNew : Runtime → Bool → Pool → Option Pool → Type 0
IsNew R false p after = after ≡ some p
IsNew R true p after =
    (s : R.State) × ((Pool.start R p s).0 ≡ ok tt) × (after ≡ some (Pool.start R p s).1)

choose_outcome :
    (before : Option Pool) (p : Pool)
    → ((old : Pool) × (before ≡ some old)
        × IsSame old p
        × (choose before p ≡ record { pool = old; fresh = false }))
      ⊎ (IsOther before p × (choose before p ≡ record { pool = p; fresh = true }))
unfolding same_pool_spec
choose_outcome none p = inr (inl refl, refl)
choose_outcome (some old) p = elim (Bool-cases (same_pool_spec old p)) [
  | inl e ↦
      inl (old, refl, (ground (arith, e), ground (arith, e), ground (arith, e)), ground (arith, e))
  | inr e ↦ inr (
    inr (old, refl, λ (image, target, spec). ground (arith, e, image, target, spec)),
    ground (arith, e),
  )
]

-- The pool that stands for an image, given the new policy's pool of it and the one before: none where the
-- policy asks for none; the one before where it warms the same; and else the new one.
abbrev pub IsPlaced : Runtime → Bool → Option Pool → Option Pool → Option Pool → Type 0
IsPlaced R started wanted before after =
    ((wanted ≡ none) × (after ≡ none))
    ⊎ ((p : Pool) × (wanted ≡ some p)
        × (((old : Pool) × (before ≡ some old) × IsSame old p × (after ≡ some old))
            ⊎ (IsOther before p × IsNew R started p after)))

placed :
    (R : Runtime) (started : Bool) (wanted before after : Option Pool)
    → (if started
        then Brought R (kept_or_new before wanted) after
        else (after ≡ Option.map (λ e. e.pool) (kept_or_new before wanted)))
    → IsPlaced R started wanted before after
placed R true none before after h = inl (refl, h)
placed R false none before after h = inl (refl, h)
placed R true (some p) before after h = elim (choose_outcome before p) [
  | inl (old, e, same, c) ↦
      inr (p, refl, inl (old, e, same, subst (λ x. Brought R (some x) after) c h))
  | inr (other, c) ↦ inr (p, refl, inr (other, subst (λ x. Brought R (some x) after) c h))
]
placed R false (some p) before after h = elim (choose_outcome before p) [
  | inl (old, e, same, c) ↦ inr (p, refl, inl (old, e, same, h ∙ ap (λ x. some x.pool) c))
  | inr (other, c) ↦ inr (p, refl, inr (other, h ∙ ap (λ x. some x.pool) c))
]

module _ {R : Runtime} {S : Store} where
  -- A failure changes nothing but the runtime's state.
  replace_policy_err :
      (pol : Option Policy) (m : Manager R S) (e : Error)
      → (replace_policy pol m).0 ≡ err e
      → (replace_policy pol m).1 ≡ record m { world = (replace_policy pol m).1.world }
  unfolding replace_policy swap
  replace_policy_err none m e h = refl
  replace_policy_err (some pol) m e h = ground (arith, h)

  -- The manager that `replace_policy` leaves, with its pool of an image.
  abbrev pub Replaced : Policy → String → Manager R S → Manager R S → Type 0
  Replaced pol image m n =
      (n ≡ record m { policy = pol; pools = n.pools; world = n.world })
      × IsPlaced R m.started (lookup image (build_pools pol)) (lookup image m.pools)
          (lookup image n.pools)

  abbrev Swapped : Policy → String → Manager R S → Manager R S → Type 0
  Swapped pol image m n =
      let wanted = kept_or_new (lookup image m.pools) (lookup image (build_pools pol)) in
      (n ≡ record m { policy = pol; pools = n.pools; world = n.world })
      × (if m.started
          then Brought R wanted (lookup image n.pools)
          else (lookup image n.pools ≡ Option.map (λ e. e.pool) wanted))

  swap_ok :
      (pol : Policy) (image : String) (m : Manager R S)
      → (swap pol m).0 ≡ ok tt
      → Swapped pol image m (swap pol m).1
  unfolding swap
  swap_ok pol image m h =
      let merged = merge m.pools (build_pools pol) in
      let place = lookup-merge image m.pools (build_pools pol) in
      elim (Result-cases (start_fresh R merged [] m.world).0) [
        | inl (pools, q) ↦
            let there : Brought R
                (kept_or_new (lookup image m.pools) (lookup image (build_pools pol)))
                (lookup image pools) =
              subst (λ e. Brought R e (lookup image pools)) place
                (start_fresh-Brought R image merged [] m.world pools q) in
            ground (arith, h, q, place, there, lookup-pools_of image merged)
        | inr (e, q) ↦ ground (arith, h, q, place, lookup-pools_of image merged)
      ]

  replace_policy_valid :
      (pol : Policy) (m : Manager R S)
      → validate pol ≡ ok tt
      → (replace_policy (some pol) m).1 ≡ (swap pol m).1
  unfolding replace_policy
  replace_policy_valid pol m v = ground (arith, v)

  -- `ReplacePolicy` succeeds or changes nothing but the runtime's state: an error leaves the policy,
  -- the pools, the started flag, the store and the log buffers as they were. A success comes only
  -- with a policy that `Validate` accepts, and sets it; an image that the new policy pools keeps its
  -- pool as it is where that has the same image, size and spec, and gets a new one else, which has been
  -- started where the manager runs; every other image has none.
  pub replace_policy_outcome :
      (pol : Policy) (image : String) (m : Manager R S)
      → let r = replace_policy (some pol) m in
        ((r.0 ≡ ok tt) × (validate pol ≡ ok tt) × Replaced pol image m r.1)
        ⊎ ((e : Error) × (r.0 ≡ err e) × (r.1 ≡ record m { world = r.1.world }))
  unfolding replace_policy
  replace_policy_outcome pol image m = elim (Result-cases (replace_policy (some pol) m).0) [
    | inr (e, h) ↦ inr (e, h, replace_policy_err (some pol) m e h)
    | inl (_, h) ↦ elim (Result-cases (validate pol)) [
      | inl (_, v) ↦
          let done : (swap pol m).0 ≡ ok tt = ground (arith, h, v) in
          let (same, there) = swap_ok pol image m done in
          let (_, n) = swap pol m in
          let left : Replaced pol image m n = (
            same,
            placed R m.started (lookup image (build_pools pol)) (lookup image m.pools)
                (lookup image n.pools) there,
          ) in
          let runs = replace_policy_valid pol m v in
          inl (h, v, subst (λ (x : Manager R S). Replaced pol image m x) (sym runs) left)
      | inr (e, v) ↦ ground (arith, h, v)
    ]
  ]
