-- ===== src/Store/Expiry.antt =====
-- Which sandboxes `ExpiredBefore` lists, in which order, and how late.
use kotakpasir.Base.{
  ℕ, ◌+◌, ◌*◌, ◌≤◌, ◌<◌, ◌≡◌, refl, ap, ◌∙◌, ◌⊎◌, inl, inr, Bool, true, false, ◌||◌, Option, none,
  some, List, [], ◌∷◌, map, String, ◌==◌, string_eq, contains, IsNodup, All, ltb, Error, ok, arith,
  Option-cases,
}
use kotakpasir.Sandbox.{Sandbox}
use mathlib.Core.Option
use kotakpasir.Store.Table.{
  Row, select_id, is_expired, select_expired, insert_by, order_by, sooner, expiry,
}
use kotakpasir.Store.{Json, Database, second, unix, scan, expired_before}
use kotakpasir.Store.Contents.{contents, ids, kept}

-- A sandbox that expires, and does so in an earlier second than `t`.
abbrev pub is_due : ℕ → Sandbox → Bool
is_due t sb = elim sb.expires_at [ none ↦ false | some e ↦ ltb (unix e) (unix t) ]

abbrev pub due? : ℕ → Option Sandbox → Bool
due? t none = false
due? t (some sb) = is_due t sb

abbrev pub expiry_of : Sandbox → ℕ
expiry_of sb = elim sb.expires_at [ none ↦ 0 | some e ↦ e ]

-- The soonest to expire stands first.
abbrev pub IsByExpiry : List Sandbox → Type 0
IsByExpiry [] = Unit
IsByExpiry (x ∷ xs) = All (λ y. expiry_of x ≤ expiry_of y) xs × IsByExpiry xs

module _ (j : Json) where
  is_due-scan : (t : ℕ) (r : Row) → is_due t (scan j r) ≡ is_expired (unix t) r
  unfolding scan is_expired
  is_due-scan t r = ground arith

  contains-insert_by :
      (r : Row) (rows : List Row) (id : String)
      → contains (map (λ q. q.id) (insert_by sooner r rows)) id
        ≡ ((r.id == id) || contains (map (λ q. q.id) rows) id)
  unfolding insert_by
  contains-insert_by r [] id = refl
  contains-insert_by r (q ∷ rows) id = ground (arith, contains-insert_by r rows id)

  contains-order_by :
      (rows : List Row) (id : String)
      → contains (map (λ q. q.id) (order_by sooner rows)) id ≡ contains (map (λ q. q.id) rows) id
  unfolding order_by
  contains-order_by [] id = refl
  contains-order_by (r ∷ rows) id =
      ground (arith, contains-insert_by r (order_by sooner rows) id, contains-order_by rows id)

  absent-select_id :
      (id : String) (rows : List Row)
      → contains (map (λ r. r.id) rows) id ≡ false
      → select_id id rows ≡ none
  unfolding select_id
  absent-select_id id [] h = refl
  absent-select_id id (r ∷ rows) h = ground (arith, absent-select_id id rows)

  contains-select_expired :
      (t : ℕ) (rows : List Row) (id : String)
      → IsNodup (map (λ q. q.id) rows)
      → contains (map (λ q. q.id) (select_expired (unix t) rows)) id
        ≡ due? t (Option.map (scan j) (select_id id rows))
  unfolding select_expired select_id
  contains-select_expired t [] id u = refl
  contains-select_expired t (r ∷ rows) id (fresh, u) = elim (Option-cases (select_id id rows)) [
    | inl missing ↦ ground (
      arith,
      missing,
      is_due-scan t r,
      contains-select_expired t rows id u,
      absent-select_id r.id rows,
    )
    | inr (q, found) ↦ ground (
      arith,
      found,
      is_due-scan t r,
      contains-select_expired t rows id u,
      absent-select_id r.id rows,
    )
  ]

  -- `r` stands before every row of a list.
  abbrev Leads : Row → List Row → Type 0
  Leads r rows = All (λ y. expiry_of (scan j r) ≤ expiry_of y) (map (scan j) rows)

  or_zero-map :
      (o : Option ℕ)
      → elim (Option.map (λ e. e * second) o) [ none ↦ 0 | some e ↦ e ]
        ≡ elim o [ none ↦ 0 | some e ↦ e ] * second
  or_zero-map none = refl
  or_zero-map (some e) = refl

  expiry_of-scan : (r : Row) → expiry_of (scan j r) ≡ expiry r * second
  unfolding scan
  expiry_of-scan r = or_zero-map r.expires_at

  expiry_of_mono : (r q : Row) → expiry r ≤ expiry q → expiry_of (scan j r) ≤ expiry_of (scan j q)
  expiry_of_mono r q h = omega (arith, expiry_of-scan r, expiry_of-scan q)

  Leads-trans : (r q : Row) (rows : List Row) → expiry r ≤ expiry q → Leads q rows → Leads r rows
  Leads-trans r q [] h l = tt
  Leads-trans r q (x ∷ rows) h (le, l) =
      (omega (arith, expiry_of_mono r q h, le), Leads-trans r q rows h l)

  Leads-insert_by :
      (q r : Row) (rows : List Row)
      → expiry q ≤ expiry r
      → Leads q rows
      → Leads q (insert_by sooner r rows)
  unfolding insert_by
  Leads-insert_by q r [] h l = (expiry_of_mono q r h, tt)
  Leads-insert_by q r (x ∷ rows) h (le, l) =
      ground (arith, expiry_of_mono q r h, Leads-insert_by q r rows h l)

  insert_by-IsByExpiry :
      (r : Row) (rows : List Row)
      → IsByExpiry (map (scan j) rows)
      → IsByExpiry (map (scan j) (insert_by sooner r rows))
  unfolding insert_by
  insert_by-IsByExpiry r [] s = (tt, tt)
  insert_by-IsByExpiry r (q ∷ rows) (l, s) = ground (
    arith,
    expiry_of_mono r q,
    Leads-trans r q rows,
    Leads-insert_by q r rows,
    insert_by-IsByExpiry r rows s,
  )

  order_by-IsByExpiry : (rows : List Row) → IsByExpiry (map (scan j) (order_by sooner rows))
  unfolding order_by
  order_by-IsByExpiry [] = tt
  order_by-IsByExpiry (r ∷ rows) = insert_by-IsByExpiry r _ (order_by-IsByExpiry rows)

  ids-scan : (rows : List Row) → map (λ sb. sb.id) (map (scan j) rows) ≡ map (λ r. r.id) rows
  unfolding scan
  ids-scan [] = refl
  ids-scan (r ∷ rows) = ap (◌∷◌ r.id) (ids-scan rows)

  listed : ℕ → Database → List Sandbox
  listed t db = map (scan j) (order_by sooner (select_expired (unix t) db.rows))

  contains-listed :
      (t : ℕ) (db : Database) (id : String)
      → IsNodup (ids j db)
      → contains (map (λ sb. sb.id) (listed t db)) id ≡ due? t (contents j db id)
  unfolding listed contents
  contains-listed t db id u = rw ids-scan (
      contains-order_by (select_expired (unix t) db.rows) id
      ∙ contains-select_expired t db.rows id u)

  listed-IsByExpiry : (t : ℕ) (db : Database) → IsByExpiry (listed t db)
  unfolding listed
  listed-IsByExpiry t db = order_by-IsByExpiry (select_expired (unix t) db.rows)

  pub expired_before_rows : (t : ℕ) (db : Database) → (expired_before j t db).1.rows ≡ db.rows
  unfolding expired_before
  expired_before_rows t db = ground arith

  expired_before-listed :
      (t : ℕ) (db : Database) (sbs : List Sandbox) (faults : List (Option Error))
      → db.faults ≡ faults
      → (expired_before j t db).0 ≡ ok sbs
      → (listed t db ≡ sbs) × ((expired_before j t db).1.rows ≡ db.rows)
  unfolding expired_before listed
  expired_before-listed t db sbs [] f h = ground arith
  expired_before-listed t db sbs (none ∷ rest) f h = ground arith
  expired_before-listed t db sbs (some e ∷ rest) f h = ground arith

  -- When `ExpiredBefore` succeeds, its list holds an id exactly when the table has a sandbox under
  -- it that expires in an earlier second than the given time, and the list goes from the soonest
  -- expiry to the latest; no row changes.
  pub expired_before_outcome :
      (t : ℕ) (db : Database) (sbs : List Sandbox) (id : String)
      → IsNodup (ids j db)
      → (expired_before j t db).0 ≡ ok sbs
      → (contains (map (λ sb. sb.id) sbs) id ≡ due? t (contents j db id))
        × IsByExpiry sbs
        × ((expired_before j t db).1.rows ≡ db.rows)
  expired_before_outcome t db sbs id u h =
      let (same, rows) = expired_before-listed t db sbs db.faults refl h in
      rw (← same) (contains-listed t db id u, listed-IsByExpiry t db, rows)

  -- A sandbox as the store keeps it is never due before its time to expire, and is due from one
  -- second after it on.
  pub due_window :
      (sb : Sandbox) (e t : ℕ)
      → sb.expires_at ≡ some e
      → ((is_due t (kept j sb none) ≡ false) ⊎ (e < t))
        × ((is_due t (kept j sb none) ≡ true) ⊎ (t < e + second))
  due_window sb e t h = rw h (ground arith)
