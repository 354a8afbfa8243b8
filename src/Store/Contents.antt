-- ===== src/Store/Contents.antt =====
-- The table as a map from ids to sandboxes, and what each method does to it.
use kotakpasir.Base.{
  ℕ, ◌*◌, ◌≡◌, ◌≢◌, refl, ◌⊎◌, inl, inr, false, ◌||◌, Option, none, some, List, [], ◌∷◌, map,
  String, if◌then◌else◌, ◌==◌, string_eq, nat_eq, contains, IsNodup, Error, sentinel, Result, ok,
  err, arith,
}
use kotakpasir.Base.Dict.{Dict}
use kotakpasir.Sandbox.{Sandbox, not_found}
use mathlib.Core.Option
use kotakpasir.Store.Table.{Row, upsert, select_id, delete_id}
use kotakpasir.Store.{Json, IsJson, Database, second, unix, to_row, scan, decode, put, get, delete}

abbrev floor : ℕ → ℕ
floor t = unix t * second

module _ (j : Json) where
  -- The sandbox that the table holds under an id.
  unfoldable pub contents : Database → String → Option Sandbox
  contents db id = Option.map (scan j) (select_id id db.rows)

  -- What is kept of a sandbox: whole seconds, and the creation time of an entry that it replaces.
  abbrev pub kept : Sandbox → Option Sandbox → Sandbox
  kept sb old = record sb {
    created_at = elim old [ none ↦ floor sb.created_at | some o ↦ o.created_at ];
    expires_at = Option.map floor sb.expires_at;
  }

  abbrev pub ids : Database → List String
  ids db = map (λ r. r.id) db.rows

module _ (j : Json) (law : IsJson j) where
  decode-marshal : (m : Dict String) → decode j (j.marshal m) ≡ m
  unfolding decode
  decode-marshal m = ground (arith, law.unmarshal-marshal m, law.nonempty m)

  scan-to_row :
      (sb : Sandbox) (c : ℕ)
      → scan j (record (to_row j sb) { created_at = c })
        ≡ record (kept j sb none) { created_at = c * second }
  unfolding scan to_row
  scan-to_row sb c = ground (arith, decode-marshal sb.env, decode-marshal sb.labels)

  select_id-upsert :
      (r : Row) (rows : List Row) (id : String)
      → select_id id (upsert r rows) ≡ (
          if r.id == id
          then some (record r {
            created_at = elim (select_id id rows) [ none ↦ r.created_at | some q ↦ q.created_at ];
          })
          else select_id id rows)
  unfolding select_id upsert
  select_id-upsert r [] id = ground arith
  select_id-upsert r (q ∷ rows) id = ground (arith, select_id-upsert r rows id)

  contains-upsert :
      (r : Row) (rows : List Row) (id : String)
      → contains (map (λ q. q.id) (upsert r rows)) id
        ≡ ((r.id == id) || contains (map (λ q. q.id) rows) id)
  unfolding upsert
  contains-upsert r [] id = ground arith
  contains-upsert r (q ∷ rows) id = ground (arith, contains-upsert r rows id)

  upsert-IsNodup :
      (r : Row) (rows : List Row)
      → IsNodup (map (λ q. q.id) rows)
      → IsNodup (map (λ q. q.id) (upsert r rows))
  unfolding upsert
  upsert-IsNodup r [] h = (refl, tt)
  upsert-IsNodup r (q ∷ rows) (fresh, h) =
      ground (arith, upsert-IsNodup r rows h, contains-upsert r rows q.id)

  rows-upsert :
      (sb : Sandbox) (rows : List Row) (id : String) (old : Option Row)
      → select_id id rows ≡ old
      → Option.map (scan j) (select_id id (upsert (to_row j sb) rows)) ≡ (
          if sb.id == id
          then some (kept j sb (Option.map (scan j) old))
          else Option.map (scan j) old)
  rows-upsert sb rows id none h =
      rw select_id-upsert
        (unfold scan to_row in ground (arith, h, decode-marshal sb.env, decode-marshal sb.labels))
  rows-upsert sb rows id (some q) h =
      rw select_id-upsert
        (unfold scan to_row in ground (arith, h, decode-marshal sb.env, decode-marshal sb.labels))

  -- A successful `Put` makes the sandbox the contents of its id, with times cut to whole seconds and
  -- the creation time of a sandbox that it replaces; every other id keeps its contents, and ids
  -- stay unique. A failed `Put` changes no row.
  pub put_outcome :
      (sb : Sandbox) (db : Database) (id : String)
      → IsNodup (ids j db)
      → let r = put j sb db in
        IsNodup (ids j r.1)
        × (((r.0 ≡ ok tt)
              × (contents j r.1 id ≡ (
                  if sb.id == id then some (kept j sb (contents j db id)) else contents j db id)))
            ⊎ ((e : Error) × (r.0 ≡ err e) × (r.1.rows ≡ db.rows)))
  unfolding put contents
  put_outcome sb db id u = ground (
    arith,
    rows-upsert sb db.rows id (select_id id db.rows) refl,
    upsert-IsNodup (to_row j sb) db.rows u,
  )

module _ (j : Json) where
  -- What `Get` may return: the contents of the id, `ErrNotFound` for an id with none, or the failure
  -- of the database.
  abbrev pub Gets : String → Database → Result Sandbox → Type 0
  Gets id db r =
      ((sb : Sandbox) × (r ≡ ok sb) × (contents j db id ≡ some sb))
      ⊎ (((r ≡ err (sentinel not_found)) × (contents j db id ≡ none))
          ⊎ ((e : Error) × (rest : List (Option Error)) × (db.faults ≡ some e ∷ rest)
              × (r ≡ err e)))

  get_when :
      (id : String) (db : Database) (o : Option Row) (faults : List (Option Error))
      → select_id id db.rows ≡ o
      → db.faults ≡ faults
      → ((get j id db).1.rows ≡ db.rows) × Gets id db (get j id db).0
  unfolding get contents
  get_when id db none [] found f = (ground arith, inr (inl (ground arith, ground arith)))
  get_when id db (some r) [] found f = (ground arith, inl (scan j r, ground arith, ground arith))
  get_when id db none (none ∷ rest) found f = (ground arith, inr (inl (ground arith, ground arith)))
  get_when id db (some r) (none ∷ rest) found f =
      (ground arith, inl (scan j r, ground arith, ground arith))
  get_when id db o (some e ∷ rest) found f = (ground arith, inr (inr (e, rest, f, ground arith)))

  -- `Get` changes no row. It returns the contents of the id, or `ErrNotFound` when there are none, or
  -- the error of the database.
  pub get_outcome :
      (id : String) (db : Database) → ((get j id db).1.rows ≡ db.rows) × Gets id db (get j id db).0
  get_outcome id db = get_when id db (select_id id db.rows) db.faults refl refl

  absent-delete :
      (id : String) (rows : List Row)
      → contains (map (λ r. r.id) rows) id ≡ false
      → (delete_id id rows ≡ (0, rows)) × (select_id id rows ≡ none)
  unfolding delete_id select_id
  absent-delete id [] h = (refl, refl)
  absent-delete id (r ∷ rows) h = ground (arith, absent-delete id rows)

  pub select_id-delete :
      (id other : String) (rows : List Row)
      → select_id other (delete_id id rows).1 ≡ (if id == other then none else select_id other rows)
  unfolding delete_id select_id
  select_id-delete id other [] = ground arith
  select_id-delete id other (r ∷ rows) = ground (arith, select_id-delete id other rows)

  contains-delete :
      (id other : String) (rows : List Row)
      → contains (map (λ r. r.id) rows) other ≡ false
      → contains (map (λ r. r.id) (delete_id id rows).1) other ≡ false
  unfolding delete_id
  contains-delete id other [] h = refl
  contains-delete id other (r ∷ rows) h = ground (arith, contains-delete id other rows)

  delete-IsNodup :
      (id : String) (rows : List Row)
      → IsNodup (map (λ r. r.id) rows)
      → IsNodup (map (λ r. r.id) (delete_id id rows).1)
  unfolding delete_id
  delete-IsNodup id [] u = tt
  delete-IsNodup id (r ∷ rows) (fresh, u) =
      ground (arith, delete-IsNodup id rows u, contains-delete id r.id rows fresh)

  pub delete-none :
      (id : String) (rows : List Row)
      → (((delete_id id rows).0 ≡ 0) × (select_id id rows ≡ none))
        ⊎ (((delete_id id rows).0 ≢ 0) × (select_id id rows ≢ none))
  unfolding delete_id select_id
  delete-none id [] = inl (refl, refl)
  delete-none id (r ∷ rows) = ground (arith, delete-none id rows)

  -- `Delete` empties the id and keeps every other; ids stay unique. It succeeds when the id had
  -- contents, fails with `ErrNotFound` when it had none, and changes no row when the database fails.
  pub delete_outcome :
      (id other : String) (db : Database)
      → IsNodup (ids j db)
      → let r = delete j id db in
        IsNodup (ids j r.1)
        × (((contents j r.1 other ≡ (if id == other then none else contents j db other))
              × (((r.0 ≡ ok tt) × (contents j db id ≢ none))
                  ⊎ ((r.0 ≡ err (sentinel not_found)) × (contents j db id ≡ none))))
            ⊎ ((e : Error) × (r.0 ≡ err e) × (r.1.rows ≡ db.rows)))
  unfolding delete contents
  delete_outcome id other db u = ground (
    arith,
    select_id-delete id other db.rows,
    delete-IsNodup id db.rows u,
    delete-none id db.rows,
  )
