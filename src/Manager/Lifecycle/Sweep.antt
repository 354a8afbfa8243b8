-- ===== src/Manager/Lifecycle/Sweep.antt =====
-- What the reaper may delete.
use kotakpasir.Base.{
  ℕ, ◌≤◌, ◌≡◌, refl, ap, ◌∙◌, false, List, [], ◌∷◌, map, String, string_eq, contains, IsNodup,
  length, Error, Result, ok, err, arith,
}
use kotakpasir.Runtime.{Runtime}
use kotakpasir.Sandbox.{Sandbox, Store}
use kotakpasir.Sandbox.Contract.{Contract}
use kotakpasir.Store.{Json, IsJson, sqlite, expired_before as select_due}
use kotakpasir.Store.Contents.{contents, ids}
use kotakpasir.Store.Contract.{sqlite-Contract, same_good, same_contents}
use kotakpasir.Store.Expiry.{due?, expired_before_outcome, expired_before_rows}
use kotakpasir.Manager.{Manager}
use kotakpasir.Manager.Lifecycle.{delete, sweep_loop, sweep}
use kotakpasir.Manager.Lifecycle.Outcome.{delete-Deletes}

module _ {R : Runtime} {S : Store} (C : Contract S) where
  sweep_loop_confined :
      (sbs : List Sandbox) (m : Manager R S) (other : String)
      → C.IsGood m.db
      → contains (map (λ sb. sb.id) sbs) other ≡ false
      → C.IsGood (sweep_loop sbs m).1.db
        × (C.contents (sweep_loop sbs m).1.db other ≡ C.contents m.db other)
        × ((sweep_loop sbs m).0 ≤ length sbs)
  unfolding sweep_loop
  sweep_loop_confined [] m other g h = (g, refl, omega arith)
  sweep_loop_confined (sb ∷ sbs) m other g h =
      ground
        (arith, delete-Deletes C sb.id other m g, sweep_loop_confined sbs (delete sb.id m).1 other)

  pub sweep_ok :
      (now : ℕ) (m : Manager R S) (sbs : List Sandbox)
      → (S.expired_before now m.db).0 ≡ ok sbs
      → (sweep now m).db ≡ (sweep_loop sbs (record m { db = (S.expired_before now m.db).1 })).1.db
  unfolding sweep
  sweep_ok now m sbs h = ground (arith, h)

  sweep_err :
      (now : ℕ) (m : Manager R S) (e : Error)
      → (S.expired_before now m.db).0 ≡ err e
      → sweep now m ≡ record m { db = (S.expired_before now m.db).1 }
  unfolding sweep
  sweep_err now m e h = ground (arith, h)

module _ (R : Runtime) (j : Json) (law : IsJson j) where
  -- Over the SQL store a sweep of the reaper leaves every sandbox alone that is not due: one that
  -- does not expire, or not in an earlier second than the sweep.
  pub sweep_spares :
      (now : ℕ) (m : Manager R (sqlite j)) (id : String)
      → IsNodup (ids j m.db)
      → due? now (contents j m.db id) ≡ false
      → contents j (sweep now m).db id ≡ contents j m.db id
  sweep_spares now m id u spared = listed (select_due j now m.db).0 refl
    where
      C : Contract (sqlite j)
      C = sqlite-Contract j law

      listed :
          (r : Result (List Sandbox))
          → (select_due j now m.db).0 ≡ r
          → contents j (sweep now m).db id ≡ contents j m.db id
      listed (ok sbs) h =
          let (holds, _, rows) = expired_before_outcome j now m.db sbs id u h in
          let after = (select_due j now m.db).1 in
          let n : Manager R (sqlite j) = record m { db = after } in
          let swept =
            sweep_loop_confined C sbs n id (same_good j m.db after rows u) (holds ∙ spared) in
          ap (λ db. contents j db id) (sweep_ok C now m sbs h)
          ∙ swept.1
          ∙ same_contents j m.db after id rows
      listed (err e) h =
          ap (λ (n : Manager R (sqlite j)). contents j n.db id) (sweep_err C now m e h)
          ∙ same_contents j m.db (select_due j now m.db).1 id (expired_before_rows j now m.db)
