-- ===== src/Store/Table.antt =====
-- internal/sandbox/store/sqlite/sqlite.go: the table `sandboxes` and the SQL statements on it, each
-- read as what its text says of the rows.
use kotakpasir.Base.{
  ℕ, suc, Bool, false, Option, none, some, List, [], ◌∷◌, String, if◌then◌else◌, ◌==◌, string_eq,
  ltb, leb,
}
use kotakpasir.Base.Int.{ℤ}

-- A row of the table `sandboxes`; times are in seconds.
pub record Row : Type 0 where
  pub id : String
  pub name : String
  pub image : String
  pub runtime_id : String
  pub state : String
  pub cpus : ℤ
  pub memory_mb : ℤ
  pub env_json : String
  pub labels_json : String
  pub created_at : ℕ
  pub expires_at : Option ℕ

-- `INSERT ... ON CONFLICT(id) DO UPDATE SET ...`, which leaves `created_at` of an old row.
unfoldable pub upsert : Row → List Row → List Row
upsert r [] = r ∷ []
upsert r (q ∷ rows) =
    if q.id == r.id then record r { created_at = q.created_at } ∷ rows else q ∷ upsert r rows

-- `WHERE id = ?`
unfoldable pub select_id : String → List Row → Option Row
select_id id [] = none
select_id id (r ∷ rows) = if r.id == id then some r else select_id id rows

-- `DELETE ... WHERE id = ?`, with the number of rows affected.
unfoldable pub delete_id : String → List Row → ℕ × List Row
delete_id id [] = (0, [])
delete_id id (r ∷ rows) =
    let (n, rest) = delete_id id rows in if r.id == id then (suc n, rest) else (n, r ∷ rest)

-- `WHERE expires_at IS NOT NULL AND expires_at < ?`
unfoldable pub is_expired : ℕ → Row → Bool
is_expired t r = elim r.expires_at [ none ↦ false | some e ↦ ltb e t ]

unfoldable pub select_expired : ℕ → List Row → List Row
select_expired t [] = []
select_expired t (r ∷ rows) =
    let rest = select_expired t rows in if is_expired t r then r ∷ rest else rest

-- `ORDER BY`: by a test that tells whether a row may stand before another.
unfoldable pub insert_by : (Row → Row → Bool) → Row → List Row → List Row
insert_by before r [] = r ∷ []
insert_by before r (q ∷ rows) = if before r q then r ∷ q ∷ rows else q ∷ insert_by before r rows

unfoldable pub order_by : (Row → Row → Bool) → List Row → List Row
order_by before [] = []
order_by before (r ∷ rows) = insert_by before r (order_by before rows)

-- `created_at DESC`, and `expires_at ASC` of rows that expire.
abbrev pub newer : Row → Row → Bool
newer r q = leb q.created_at r.created_at

abbrev pub expiry : Row → ℕ
expiry r = elim r.expires_at [ none ↦ 0 | some e ↦ e ]

abbrev pub sooner : Row → Row → Bool
sooner r q = leb (expiry r) (expiry q)
