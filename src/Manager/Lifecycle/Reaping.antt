-- ===== src/Manager/Lifecycle/Reaping.antt =====
-- What the reaper deletes, where the database does not fail.
use kotakpasir.Base.{
  ℕ, ◌≡◌, inl, inr, refl, sym, ap, subst, ◌∙◌, none, List, [], ◌∷◌, map, String, if◌then◌else◌,
  ◌==◌, string_eq, contains, IsNodup, Error, sentinel, ok, err, arith,
}
use kotakpasir.Runtime.{Runtime}
use kotakpasir.Sandbox.{Sandbox, not_found}
use kotakpasir.Store
use kotakpasir.Store.{Json, IsJson, Database, sqlite}
use kotakpasir.Store.Contents.{contents, ids, get_outcome, delete_outcome}
use kotakpasir.Store.Expiry.{due?, expired_before_outcome}
use kotakpasir.Store.Quiet.{
  get_quiet, list_quiet, expired_before_quiet, delete_quiet, delete_tells, delete_contents,
}
use kotakpasir.Manager.{Manager, refresh_active, drop_log_buffer}
use kotakpasir.Manager.Lifecycle.{delete, sweep_loop, sweep}
use kotakpasir.Manager.Lifecycle.Sweep.{sweep_ok}
use kotakpasir.Store.Contract.{sqlite-Contract}

module _ (R : Runtime) (j : Json) where
  delete_db :
      (id : String) (m : Manager R (sqlite j)) (sb : Sandbox)
      → m.db.faults ≡ []
      → (Store.get j id m.db).0 ≡ ok sb
      → (Store.delete j id m.db).0 ≡ ok tt
      → (delete id m).1.db ≡ (Store.delete j id m.db).1
  unfolding delete refresh_active drop_log_buffer
  delete_db id m sb h q d = ground (
    arith,
    q,
    d,
    get_quiet j id m.db h,
    list_quiet j (Store.delete j id m.db).1 (delete_quiet j id m.db h),
  )

  -- A deletion over a database that does not fail empties the id, and the database goes on not failing.
  Clears : String → String → Manager R (sqlite j) → Manager R (sqlite j) → Type 0
  Clears id other m n =
      (n.db.faults ≡ [])
      × IsNodup (ids j n.db)
      × (contents j n.db other ≡ (if id == other then none else contents j m.db other))

  delete_refused :
      (id : String) (m : Manager R (sqlite j)) (e : Error)
      → (Store.get j id m.db).0 ≡ err e
      → (delete id m).1 ≡ record m { db = (Store.get j id m.db).1 }
  unfolding delete
  delete_refused id m e h = ground (arith, h)

  cleared_db :
      (id other : String) (m : Manager R (sqlite j)) (db : Database)
      → m.db.faults ≡ []
      → IsNodup (ids j m.db)
      → db ≡ (Store.delete j id m.db).1
      → (db.faults ≡ [])
        × IsNodup (ids j db)
        × (contents j db other ≡ (if id == other then none else contents j m.db other))
  cleared_db id other m db h u same =
      subst
        (λ (d : Database).
          (d.faults ≡ [])
          × IsNodup (ids j d)
          × (contents j d other ≡ (if id == other then none else contents j m.db other)))
        (sym same)
        (
          delete_quiet j id m.db h,
          (delete_outcome j id other m.db u).0,
          delete_contents j id other m.db h,
        )

  delete-Clears :
      (id other : String) (m : Manager R (sqlite j))
      → m.db.faults ≡ []
      → IsNodup (ids j m.db)
      → Clears id other m (delete id m).1
  unfolding Clears
  delete-Clears id other m h u = elim (get_outcome j id m.db).1 [
    | inl (sb, q, held) ↦ elim (delete_tells j id m.db h) [
      | inl (d, _) ↦ cleared_db id other m (delete id m).1.db h u (delete_db id m sb h q d)
      | inr (_, empty) ↦ cc (held, empty)
    ]
    | inr (inl (q, empty)) ↦
        subst
          (λ (n : Manager R (sqlite j)).
            (n.db.faults ≡ [])
            × IsNodup (ids j n.db)
            × (contents j n.db other ≡ (if id == other then none else contents j m.db other)))
          (sym (delete_refused id m (sentinel not_found) q))
          (
            ap (λ (d : Database). d.faults) (get_quiet j id m.db h) ∙ h,
            subst (λ d. IsNodup (ids j d)) (sym (get_quiet j id m.db h)) u,
            ap (λ d. contents j d other) (get_quiet j id m.db h) ∙ ground (arith, empty),
          )
    | inr (inr (e, rest, f, q)) ↦ cc (h, f)
  ]

  sweep_loop_clears :
      (sbs : List Sandbox) (other : String) (m : Manager R (sqlite j))
      → m.db.faults ≡ []
      → IsNodup (ids j m.db)
      → contents j (sweep_loop sbs m).1.db other
        ≡ (if contains (map (λ sb. sb.id) sbs) other then none else contents j m.db other)
  unfolding sweep_loop Clears
  sweep_loop_clears [] other m h u = refl
  sweep_loop_clears (sb ∷ sbs) other m h u =
      let (quiet, once, cleared) = delete-Clears sb.id other m h u in
      ground (arith, cleared, sweep_loop_clears sbs other (delete sb.id m).1 quiet once)

  -- Over the SQL store, and while no statement fails, a sweep of the reaper deletes exactly the sandboxes
  -- that are due: those that expire in an earlier second than the sweep. Every other is as it was.
  pub sweep_reaps :
      (law : IsJson j) (now : ℕ) (m : Manager R (sqlite j)) (id : String)
      → m.db.faults ≡ []
      → IsNodup (ids j m.db)
      → contents j (sweep now m).db id
        ≡ (if due? now (contents j m.db id) then none else contents j m.db id)
  sweep_reaps law now m id h u =
      let ((sbs, q), same) = expired_before_quiet j now m.db h in
      let n : Manager R (sqlite j) = record m { db = (Store.expired_before j now m.db).1 } in
      let (listed, _, _) = expired_before_outcome j now m.db sbs id u q in
      let swept =
        sweep_loop_clears sbs id n (ap (λ (d : Database). d.faults) same ∙ h)
          (subst (λ d. IsNodup (ids j d)) (sym same) u) in
      ap (λ d. contents j d id) (sweep_ok (sqlite-Contract j law) now m sbs q)
      ∙ swept
      ∙ ground (arith, listed, ap (λ d. contents j d id) same)
