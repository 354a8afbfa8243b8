-- ===== src/Pool/Filling.antt =====
-- How many containers are warm after `Start` and after a round of the refiller.
use kotakpasir.Base.{
  ℕ, zero, suc, ◌+◌, ◌≤◌, ◌<◌, ◌≡◌, ◌≢◌, refl, ap, sym, subst, List, ◌∷◌, String, Result, ◌⊎◌, inl,
  inr, true, false, [], length, Error, ok, err, arith, Bool-cases, Result-cases,
}
use kotakpasir.Base.Int.{to_ℕ}
use kotakpasir.Runtime.{Runtime, Spec, Handle}
use kotakpasir.Pool.{
  Pool, Stop, full, failed, out_of_fuel, available, spawn, start_loop, start, refill_loop, refill,
}

module _ (R : Runtime) where
  spawn_ok :
      (p : Pool) (s : R.State)
      → p.closed ≡ false
      → (spawn R p s).0 ≡ ok tt
      → ((spawn R p s).1.cfg ≡ p.cfg)
        × ((spawn R p s).1.closed ≡ false)
        × (length (spawn R p s).1.avail ≡ suc (length p.avail))
        × ((spawn R p s).1.refilling ≡ p.refilling)
  unfolding spawn
  spawn_ok p s open_ h = ground arith

  spawn_err : (p : Pool) (s : R.State) (e : Error) → (spawn R p s).0 ≡ err e → (spawn R p s).1 ≡ p
  unfolding spawn
  spawn_err p s e h = ground arith

  spawn_same : (p : Pool) (s : R.State) → ((spawn R p s).0 ≡ ok tt) ⊎ ((spawn R p s).1 ≡ p)
  unfolding spawn
  spawn_same p s = ground arith

  -- Creations of containers of one spec that all succeed: the ids, the latest first, and the runtime before
  -- and behind them.
  pub data Creates (spec : Spec) : List String → R.State → R.State → Type 0 where
    no_more : (s : R.State) → Creates spec [] s s
    one_more :
        (ids : List String) (s t : R.State) (h : Handle)
        → Creates spec ids s t
        → (R.create spec t).0 ≡ ok h
        → Creates spec (h.id ∷ ids) s (R.create spec t).1

  -- A start that has succeeded: as many containers as the target are in the pool, and the refiller runs.
  abbrev pub Started : Pool → ℕ → R.State → Result (Unit {0}) × Pool × R.State → Type 0
  Started p n s r =
      (r.0 ≡ ok tt)
      × (r.1 ≡ record p { avail = r.1.avail; refilling = true })
      × (length r.1.avail ≡ n)
      × Creates p.spec r.1.avail s r.2

  -- One that has failed: the creation behind those of the pool's containers did, with this error.
  abbrev pub Broken : Pool → ℕ → R.State → Result (Unit {0}) × Pool × R.State → Type 0
  Broken p n s r =
      (e : Error) × (t : R.State) × (r.0 ≡ err e)
      × (r.1 ≡ record p { avail = r.1.avail })
      × (length r.1.avail < n)
      × Creates p.spec r.1.avail s t
      × (R.create p.spec t ≡ (err e, r.2))

  spawn_created :
      (p : Pool) (s : R.State) (h : Handle)
      → p.closed ≡ false
      → (R.create p.spec s).0 ≡ ok h
      → spawn R p s ≡ (ok tt, record p { avail = h.id ∷ p.avail }, (R.create p.spec s).1)
  unfolding spawn
  spawn_created p s h open_ e = ground (arith, open_, e)

  spawn_failed :
      (p : Pool) (s : R.State) (e : Error)
      → (R.create p.spec s).0 ≡ err e
      → spawn R p s ≡ (err e, p, (R.create p.spec s).1)
  unfolding spawn
  spawn_failed p s e h = ground (arith, h)

  start_loop_failed :
      (n : ℕ) (p : Pool) (s : R.State) (e : Error)
      → (R.create p.spec s).0 ≡ err e
      → start_loop R (suc n) p s ≡ (err e, p, (R.create p.spec s).1)
  unfolding start_loop
  start_loop_failed n p s e h = ground (arith, spawn_failed p s e h)

  start_loop_created :
      (n : ℕ) (p : Pool) (s : R.State) (h : Handle)
      → p.closed ≡ false
      → (R.create p.spec s).0 ≡ ok h
      → start_loop R (suc n) p s
        ≡ start_loop R n (record p { avail = h.id ∷ p.avail }) (R.create p.spec s).1
  unfolding start_loop
  start_loop_created n p s h open_ e = ground (arith, spawn_created p s h open_ e)

  start_loop_outcome :
      (n : ℕ) (p : Pool) (s t : R.State)
      → p.closed ≡ false
      → Creates p.spec p.avail s t
      → Started p (n + length p.avail) s (start_loop R n p t)
        ⊎ Broken p (n + length p.avail) s (start_loop R n p t)
  unfolding start_loop
  start_loop_outcome zero p s t open_ made = inl (refl, refl, ground arith, made)
  start_loop_outcome (suc n) p s t open_ made = elim (Result-cases (R.create p.spec t).0) [
    | inr (e, q) ↦
        rw (start_loop_failed n p t e q)
          (inr (e, t, refl, refl, omega arith, made, λ i. (q i, (R.create p.spec t).1)))
    | inl (h, q) ↦
        let next = record p { avail = h.id ∷ p.avail } in
        let t' = (R.create p.spec t).1 in
        let rest = start_loop_outcome n next s t' open_ (one_more p.avail s t h made q) in
        rw (start_loop_created n p t h open_ q) (
          subst
            (λ k. Started p k s (start_loop R n next t') ⊎ Broken p k s (start_loop R n next t'))
            (omega arith) rest)
  ]

  -- `Start` on an open, empty pool. Either it succeeds, with the refiller running and with as many
  -- containers in the pool as the target, all created one after the other from the pool's spec; or a
  -- creation fails and `Start` with its error. Then exactly the containers created before it, fewer than
  -- the target, stay in the pool. The rest of the pool is as before.
  pub start_outcome :
      (p : Pool) (s : R.State)
      → p.closed ≡ false
      → p.avail ≡ []
      → Started p (to_ℕ p.cfg.target) s (start R p s) ⊎ Broken p (to_ℕ p.cfg.target) s (start R p s)
  unfolding start
  start_outcome p s open_ empty =
      subst
        (λ n.
          Started p n s (start_loop R (to_ℕ p.cfg.target) p s)
          ⊎ Broken p n s (start_loop R (to_ℕ p.cfg.target) p s))
        (omega (arith, ap length empty))
        (start_loop_outcome (to_ℕ p.cfg.target) p s s open_
          (subst (λ ids. Creates p.spec ids s s) (sym empty) (no_more s)))

  refill_loop_ends :
      (fuel : ℕ) (p : Pool) (s : R.State)
      → to_ℕ p.cfg.target < fuel + length p.avail
      → length p.avail ≤ to_ℕ p.cfg.target
      → (refill_loop R fuel p s).0 ≢ out_of_fuel
  unfolding refill_loop
  refill_loop_ends zero p s enough fits = absurd (omega arith)
  refill_loop_ends (suc fuel) p s enough fits = elim (Bool-cases p.closed) [
    | inl shut ↦ rw shut (λ h. cc)
    | inr open_ ↦
        ground (arith, spawn_ok p s open_, refill_loop_ends fuel (spawn R p s).1 (spawn R p s).2)
  ]

  refill_loop_full :
      (fuel : ℕ) (p : Pool) (s : R.State)
      → length p.avail ≤ to_ℕ p.cfg.target
      → let r = refill_loop R fuel p s in
        (length r.1.avail ≤ to_ℕ p.cfg.target)
        × (length p.avail ≤ length r.1.avail)
        × (r.1.cfg ≡ p.cfg)
        × (r.0 ≡ full → r.1.closed ≡ false → length r.1.avail ≡ to_ℕ p.cfg.target)
  unfolding refill_loop
  refill_loop_full zero p s fits = ground arith
  refill_loop_full (suc fuel) p s fits = elim (Bool-cases p.closed) [
    | inl shut ↦ rw shut (ground arith)
    | inr open_ ↦ ground (
      arith,
      spawn_ok p s open_,
      spawn_same p s,
      refill_loop_full fuel (spawn R p s).1 (spawn R p s).2,
    )
  ]

  refill_loop_stop :
      (fuel : ℕ) (p : Pool) (s : R.State)
      → to_ℕ p.cfg.target < fuel + length p.avail
      → length p.avail ≤ to_ℕ p.cfg.target
      → let r = refill_loop R fuel p s in
        ((r.0 ≡ full) × ((r.1.closed ≡ true) ⊎ (length r.1.avail ≡ to_ℕ p.cfg.target)))
        ⊎ ((e : Error) × (r.0 ≡ failed e))
  refill_loop_stop fuel p s enough fits = stop_cases (refill_loop R fuel p s).0 refl
    where
      stop_cases :
          (stop : Stop)
          → (refill_loop R fuel p s).0 ≡ stop
          → let r = refill_loop R fuel p s in
            ((r.0 ≡ full) × ((r.1.closed ≡ true) ⊎ (length r.1.avail ≡ to_ℕ p.cfg.target)))
            ⊎ ((e : Error) × (r.0 ≡ failed e))
      stop_cases full h = elim (Bool-cases (refill_loop R fuel p s).1.closed) [
        | inl shut ↦ inl (h, inl shut)
        | inr open_ ↦ inl (h, inr ((refill_loop_full fuel p s fits).3 h open_))
      ]
      stop_cases (failed e) h = inr (e, h)
      stop_cases out_of_fuel h = absurd (refill_loop_ends fuel p s enough fits h)

  -- A round of the refiller ends: by its own test, and then it had no signal, or the pool is closed,
  -- or exactly the target number of containers is warm; or at a failed creation. It never fills the
  -- pool beyond its target and never makes it smaller.
  pub refill_outcome :
      (p : Pool) (s : R.State)
      → available p ≤ to_ℕ p.cfg.target
      → let r = refill R p s in
        (available r.1 ≤ to_ℕ p.cfg.target)
        × (available p ≤ available r.1)
        × (((r.0 ≡ full)
              × ((p.signal ≡ false) ⊎ ((r.1.closed ≡ true) ⊎ (available r.1 ≡ to_ℕ p.cfg.target))))
            ⊎ ((e : Error) × (r.0 ≡ failed e)))
  unfolding refill
  refill_outcome p s fits =
      let woken = record p { signal = false } in
      let fuel = suc (to_ℕ p.cfg.target) in
      ground (
        arith,
        refill_loop_full fuel woken s fits,
        refill_loop_stop fuel woken s (omega arith) fits,
      )
