-- ===== src/Store/Contract.antt =====
-- The SQL store meets the manager's contract.
use kotakpasir.Base.{
  ◌≡◌, refl, ap, ◌⊎◌, inl, inr, none, some, String, IsNodup, string_eq, Error, ok, err, arith,
  sentinel, if◌then◌else◌, ◌==◌, ◌≢◌, List, [], ◌∷◌,
}
use kotakpasir.Sandbox.{Sandbox, not_found}
use kotakpasir.Sandbox.Contract.{Contract}
use mathlib.Core.Option
use kotakpasir.Store.{Json, IsJson, Database, sqlite, scan, put, get, list, delete, expired_before}
use kotakpasir.Store.Table.{Row, select_id}
use kotakpasir.Store.Expiry.{expired_before_rows}
use kotakpasir.Store.Contents.{contents, ids, kept, put_outcome, get_outcome, delete_outcome}

module _ (j : Json) where
  pub list_rows : (db : Database) → (list j db).1.rows ≡ db.rows
  unfolding list
  list_rows db = ground arith

  pub same_contents :
      (db db' : Database) (id : String) → db'.rows ≡ db.rows → contents j db' id ≡ contents j db id
  unfolding contents
  same_contents db db' id h = ap (λ rows. Option.map (scan j) (select_id id rows)) h

  pub same_good :
      (db db' : Database) → db'.rows ≡ db.rows → IsNodup (ids j db) → IsNodup (ids j db')
  same_good db db' h u = rw h u

  pub get_lem :
      (id other : String) (db : Database)
      → IsNodup (ids j db)
      → let r = get j id db in
        IsNodup (ids j r.1)
        × (contents j r.1 other ≡ contents j db other)
        × (((sb : Sandbox) × (r.0 ≡ ok sb) × (contents j db id ≡ some sb))
            ⊎ (((r.0 ≡ err (sentinel not_found)) × (contents j db id ≡ none))
                ⊎ ((e : Error) × (r.0 ≡ err e))))
  get_lem id other db u =
      let (rows, gets) = get_outcome j id db in
      (
        same_good db (get j id db).1 rows u,
        same_contents db (get j id db).1 other rows,
        elim gets [
          | inl found ↦ inl found
          | inr (inl missing) ↦ inr (inl missing)
          | inr (inr (e, rest, f, h)) ↦ inr (inr (e, h))
        ],
      )

  pub delete_lem :
      (id other : String) (db : Database)
      → IsNodup (ids j db)
      → let r = delete j id db in
        IsNodup (ids j r.1)
        × (((contents j r.1 other ≡ (if id == other then none else contents j db other))
              × (((r.0 ≡ ok tt) × (contents j db id ≢ none))
                  ⊎ ((r.0 ≡ err (sentinel not_found)) × (contents j db id ≡ none))))
            ⊎ ((e : Error) × (r.0 ≡ err e) × (contents j r.1 other ≡ contents j db other)))
  delete_lem id other db u =
      let (good, what) = delete_outcome j id other db u in
      (
        good,
        elim what [
          | inl done ↦ inl done
          | inr (e, h, rows) ↦ inr (e, h, same_contents db (delete j id db).1 other rows)
        ],
      )

  found_id :
      (id : String) (rows : List Row) (sb : Sandbox)
      → Option.map (scan j) (select_id id rows) ≡ some sb
      → sb.id ≡ id
  unfolding scan select_id
  found_id id [] sb h = ground (arith, h)
  found_id id (r ∷ rows) sb h = ground (arith, h, found_id id rows sb)

  pub contents_id_lem :
      (db : Database) (id : String) (sb : Sandbox) → contents j db id ≡ some sb → sb.id ≡ id
  unfolding contents
  contents_id_lem db id sb h = found_id id db.rows sb h

  module _ (law : IsJson j) where
    pub put_lem :
        (sb : Sandbox) (db : Database) (id : String)
        → IsNodup (ids j db)
        → let r = put j sb db in
          IsNodup (ids j r.1)
          × (((r.0 ≡ ok tt)
                × (contents j r.1 id ≡ (
                    if sb.id == id then some (kept j sb (contents j db id)) else contents j db id)))
              ⊎ ((e : Error) × (r.0 ≡ err e) × (contents j r.1 id ≡ contents j db id)))
    put_lem sb db id u =
        let (good, what) = put_outcome j law sb db id u in
        (
          good,
          elim what [
            | inl done ↦ inl done
            | inr (e, h, rows) ↦ inr (e, h, same_contents db (put j sb db).1 id rows)
          ],
        )

-- With a JSON codec that decodes what it encodes, the SQL store is one: a state is good when no id
-- stands in two rows, and its contents are what `scan` reads from the row of an id.
abbrev pub sqlite-Contract : (j : Json) → IsJson j → Contract (sqlite j)
sqlite-Contract j law = record {
  IsGood = λ db. IsNodup (ids j db);
  contents = contents j;
  kept = kept j;
  contents_id = contents_id_lem j;
  kept_state = λ sb old. refl;
  kept_runtime_id = λ sb old. refl;
  kept_id = λ sb old. refl;
  kept_name = λ sb old. refl;
  kept_image = λ sb old. refl;
  put_law = put_lem j law;
  get_law = get_lem j;
  list_law = λ other db u. (
    same_good j db (list j db).1 (list_rows j db) u,
    same_contents j db (list j db).1 other (list_rows j db),
  );
  expired_before_law = λ t other db u. (
    same_good j db (expired_before j t db).1 (expired_before_rows j t db) u,
    same_contents j db (expired_before j t db).1 other (expired_before_rows j t db),
  );
  delete_law = delete_lem j;
}
