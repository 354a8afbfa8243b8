-- ===== src/Registry.antt =====
-- internal/registry/registry.go: a map behind a lock. Each method holds the lock from its start to its end,
-- so a call is one step; a Go map is an association list, in some order.
pub mod History
use kotakpasir.Base.{ℕ, Bool, Option, none, some, List, [], ◌∷◌, String, if◌then◌else◌, length}
use kotakpasir.Base.Dict.{Dict, lookup, insert, erase}

pub record Registry {ℓ} (V : Type ℓ) : Type ℓ where
  pub items : Dict V

module _ {ℓ} {V : Type ℓ} where
  -- `New`
  abbrev pub new : Registry V
  new = record { items = [] }

  -- `Put`
  unfoldable pub put : String → V → Registry V → Registry V
  put id v r = record r { items = insert id v r.items }

  -- `Get`
  unfoldable pub get : String → Registry V → Option V
  get id r = lookup id r.items

  -- `Delete`: what it returns, and the registry behind it.
  unfoldable pub delete : String → Registry V → Option V × Registry V
  delete id r =
      let v = lookup id r.items in
      (v, elim v [ some _ ↦ record r { items = erase id r.items } | none ↦ r ])

  -- `Len`
  unfoldable pub len : Registry V → ℕ
  len r = length r.items

  -- The loop of `All`: the entries that `yield` is called with.
  unfoldable pub visit : (String → V → Bool) → Dict V → Dict V
  visit yield [] = []
  visit yield ((id, v) ∷ items) =
      let rest = visit yield items in (id, v) ∷ (if yield id v then rest else [])

  -- `All`
  unfoldable pub all : Registry V → (String → V → Bool) → Dict V
  unfolding visit
  all r yield = visit yield r.items
