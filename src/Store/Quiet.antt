-- ===== src/Store/Quiet.antt =====
-- The store while no statement fails.
use kotakpasir.Base.{
  ℕ, ◌≡◌, ◌≢◌, ◌⊎◌, inl, inr, none, List, [], String, if◌then◌else◌, ◌==◌, string_eq, nat_eq,
  sentinel, ok, err, arith, Result-cases,
}
use kotakpasir.Sandbox.{Sandbox, not_found}
use kotakpasir.Store.{Json, Database, get, list, delete, expired_before}
use kotakpasir.Store.Contents.{contents, delete-none, select_id-delete}

module _ (j : Json) where
  pub get_quiet : (id : String) (db : Database) → db.faults ≡ [] → (get j id db).1 ≡ db
  unfolding get
  get_quiet id db h = ground (arith, h)

  pub list_quiet : (db : Database) → db.faults ≡ [] → (list j db).1 ≡ db
  unfolding list
  list_quiet db h = ground (arith, h)

  pub expired_before_quiet :
      (t : ℕ) (db : Database)
      → db.faults ≡ []
      → ((sbs : List Sandbox) × ((expired_before j t db).0 ≡ ok sbs))
        × ((expired_before j t db).1 ≡ db)
  unfolding expired_before
  expired_before_quiet t db h = (
    elim (Result-cases (expired_before j t db).0) [
      | inl found ↦ found
      | inr (e, q) ↦ absurd (ground (arith, h, q))
    ],
    ground (arith, h),
  )

  pub delete_quiet : (id : String) (db : Database) → db.faults ≡ [] → (delete j id db).1.faults ≡ []
  unfolding delete
  delete_quiet id db h = ground (arith, h)

  pub delete_tells :
      (id : String) (db : Database)
      → db.faults ≡ []
      → (((delete j id db).0 ≡ ok tt) × (contents j db id ≢ none))
        ⊎ (((delete j id db).0 ≡ err (sentinel not_found)) × (contents j db id ≡ none))
  unfolding delete contents
  delete_tells id db h = ground (arith, h, delete-none j id db.rows)

  pub delete_contents :
      (id other : String) (db : Database)
      → db.faults ≡ []
      → contents j (delete j id db).1 other ≡ (if id == other then none else contents j db other)
  unfolding delete contents
  delete_contents id other db h = ground (arith, h, select_id-delete j id other db.rows)
