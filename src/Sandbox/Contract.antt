-- ===== src/Sandbox/Contract.antt =====
-- What the manager relies on of a store, whatever implements it: internal/sandbox/store.go.
use kotakpasir.Base.{
  ℕ, ◌≡◌, ◌≢◌, ◌⊎◌, ◌==◌, string_eq, if◌then◌else◌, Option, none, some, String, Error, sentinel, ok,
  err,
}
use kotakpasir.Sandbox.{Sandbox, Store, not_found}

-- The states that the store can be in, the sandbox that a state holds under an id, and what is kept
-- of a sandbox that is put over another.
pub record Contract (S : Store) : Type 1 where
  pub IsGood : S.State → Type 0
  pub contents : S.State → String → Option Sandbox
  pub kept : Sandbox → Option Sandbox → Sandbox
  pub contents_id :
      (db : S.State) (id : String) (sb : Sandbox) → contents db id ≡ some sb → sb.id ≡ id
  pub kept_state : (sb : Sandbox) (old : Option Sandbox) → (kept sb old).state ≡ sb.state
  pub kept_runtime_id :
      (sb : Sandbox) (old : Option Sandbox) → (kept sb old).runtime_id ≡ sb.runtime_id
  pub kept_id : (sb : Sandbox) (old : Option Sandbox) → (kept sb old).id ≡ sb.id
  pub kept_name : (sb : Sandbox) (old : Option Sandbox) → (kept sb old).name ≡ sb.name
  pub kept_image : (sb : Sandbox) (old : Option Sandbox) → (kept sb old).image ≡ sb.image
  pub put_law :
      (sb : Sandbox) (db : S.State) (id : String)
      → IsGood db
      → let r = S.put sb db in
        IsGood r.1
        × (((r.0 ≡ ok tt)
              × (contents r.1 id
                  ≡ (if sb.id == id then some (kept sb (contents db id)) else contents db id)))
            ⊎ ((e : Error) × (r.0 ≡ err e) × (contents r.1 id ≡ contents db id)))
  pub get_law :
      (id other : String) (db : S.State)
      → IsGood db
      → let r = S.get id db in
        IsGood r.1
        × (contents r.1 other ≡ contents db other)
        × (((sb : Sandbox) × (r.0 ≡ ok sb) × (contents db id ≡ some sb))
            ⊎ (((r.0 ≡ err (sentinel not_found)) × (contents db id ≡ none))
                ⊎ ((e : Error) × (r.0 ≡ err e))))
  pub list_law :
      (other : String) (db : S.State)
      → IsGood db
      → IsGood (S.list db).1 × (contents (S.list db).1 other ≡ contents db other)
  pub expired_before_law :
      (t : ℕ) (other : String) (db : S.State)
      → IsGood db
      → let r = S.expired_before t db in IsGood r.1 × (contents r.1 other ≡ contents db other)
  pub delete_law :
      (id other : String) (db : S.State)
      → IsGood db
      → let r = S.delete id db in
        IsGood r.1
        × (((contents r.1 other ≡ (if id == other then none else contents db other))
              × (((r.0 ≡ ok tt) × (contents db id ≢ none))
                  ⊎ ((r.0 ≡ err (sentinel not_found)) × (contents db id ≡ none))))
            ⊎ ((e : Error) × (r.0 ≡ err e) × (contents r.1 other ≡ contents db other)))
