-- ===== src/Store.antt =====
-- internal/sandbox/store/sqlite/sqlite.go: the methods of the store.
-- `faults` lists the outcomes of the statements to come: a failed one has no effect. The JSON
-- encoder and decoder are parameters.
mod Table
pub mod Contents
pub mod Expiry
pub mod Quiet
pub mod Contract
pub mod Codec
pub mod Tests
use kotakpasir.Base.{
  ℕ, zero, ◌*◌, ◌/◌, ◌≡◌, ◌≢◌, Option, none, some, List, [], ◌∷◌, map, String, if◌then◌else◌, ◌==◌,
  string_eq, nat_eq, Error, sentinel, Result, ok, err,
}
use kotakpasir.Base.Dict.{Dict}
use kotakpasir.Sandbox.{Sandbox, Store, not_found}
use mathlib.Core.Option
use Table.{
  Row, upsert, select_id, delete_id, select_expired, is_expired, order_by, insert_by, newer, sooner,
}

-- `encoding/json` on a map of texts. A failed `Unmarshal` is ignored, and leaves the map empty.
pub record Json : Type 0 where
  pub marshal : Dict String → String
  pub unmarshal : String → Option (Dict String)

-- What the store relies on: decoding undoes encoding, and no encoding is the empty text.
pub record IsJson (j : Json) : Type 0 where
  pub unmarshal-marshal : (m : Dict String) → j.unmarshal (j.marshal m) ≡ some m
  pub nonempty : (m : Dict String) → j.marshal m ≢ ""

pub record Database : Type 0 where
  pub rows : List Row
  pub faults : List (Option Error)

-- The outcome of the next statement, and the database behind it.
execute : Database → Option Error × Database
execute db = elim db.faults [ [] ↦ (none, db) | f ∷ rest ↦ (f, record db { faults = rest }) ]

abbrev pub second : ℕ
second = 1000000000

-- `t.Unix()`
abbrev pub unix : ℕ → ℕ
unix t = t / second

module _ (j : Json) where
  -- The values bound by `Put`.
  unfoldable pub to_row : Sandbox → Row
  to_row sb = record {
    id = sb.id;
    name = sb.name;
    image = sb.image;
    runtime_id = sb.runtime_id;
    state = sb.state;
    cpus = sb.cpus;
    memory_mb = sb.memory_mb;
    env_json = j.marshal sb.env;
    labels_json = j.marshal sb.labels;
    created_at = unix sb.created_at;
    expires_at = Option.map unix sb.expires_at;
  }

  unfoldable pub decode : String → Dict String
  decode text = if text == "" then [] else elim (j.unmarshal text) [ none ↦ [] | some m ↦ m ]

  -- `scan`
  unfoldable pub scan : Row → Sandbox
  scan r = record {
    id = r.id;
    name = r.name;
    image = r.image;
    runtime_id = r.runtime_id;
    state = r.state;
    cpus = r.cpus;
    memory_mb = r.memory_mb;
    env = decode r.env_json;
    labels = decode r.labels_json;
    created_at = r.created_at * second;
    expires_at = Option.map (λ e. e * second) r.expires_at;
  }

  unfoldable pub put : Sandbox → Database → Result (Unit {0}) × Database
  unfolding execute upsert
  put sb db =
      let (fault, db') = execute db in
      elim fault [
        | some e ↦ (err e, db')
        | none ↦ (ok tt, record db' { rows = upsert (to_row sb) db'.rows })
      ]

  unfoldable pub get : String → Database → Result Sandbox × Database
  unfolding execute select_id
  get id db =
      let (fault, db') = execute db in
      elim fault [
        | some e ↦ (err e, db')
        | none ↦ elim (select_id id db'.rows) [
          | none ↦ (err (sentinel not_found), db')
          | some r ↦ (ok (scan r), db')
        ]
      ]

  unfoldable pub list : Database → Result (List Sandbox) × Database
  unfolding execute order_by insert_by
  list db =
      let (fault, db') = execute db in
      elim fault [ some e ↦ (err e, db') | none ↦ (ok (map scan (order_by newer db'.rows)), db') ]

  unfoldable pub expired_before : ℕ → Database → Result (List Sandbox) × Database
  unfolding execute order_by insert_by select_expired is_expired
  expired_before t db =
      let (fault, db') = execute db in
      elim fault [
        | some e ↦ (err e, db')
        | none ↦ (ok (map scan (order_by sooner (select_expired (unix t) db'.rows))), db')
      ]

  unfoldable pub delete : String → Database → Result (Unit {0}) × Database
  unfolding execute delete_id
  delete id db =
      let (fault, db') = execute db in
      elim fault [
        | some e ↦ (err e, db')
        | none ↦
            let (n, rows) = delete_id id db'.rows in
            (if n == 0 then err (sentinel not_found) else ok tt, record db' { rows = rows })
      ]

  -- `Ping`
  unfoldable pub ping : Database → Result (Unit {0})
  unfolding execute
  ping db = elim (execute db).0 [ none ↦ ok tt | some e ↦ err e ]

  -- The store as the manager sees it.
  abbrev pub sqlite : Store
  sqlite = record {
    State = Database;
    put = put;
    get = get;
    list = list;
    delete = delete;
    expired_before = expired_before;
    ping = some ping;
  }
