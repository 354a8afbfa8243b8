-- ===== src/Registry/History.antt =====
-- A registry after any calls of `Put` and `Delete`.
use kotakpasir.Base.{
  ◌≡◌, refl, sym, ap, subst, ◌∙◌, true, ◌||◌, ◌&&◌, not, Option, none, some, List, [], ◌∷◌, String,
  if◌then◌else◌, ◌==◌, string_eq, length, contains, IsNodup, arith,
}
use kotakpasir.Base.Dict.{Dict, lookup, insert, erase, keys, lookup-insert, lookup-erase}
use kotakpasir.Registry.{Registry, new, put, get, delete, len, visit, all}

-- A call of `Put` or `Delete`.
pub data Change {ℓ} (V : Type ℓ) : Type ℓ where
  putting : String → V → Change V
  deleting : String → Change V

module _ {ℓ} {V : Type ℓ} where
  abbrev apply : Change V → Registry V → Registry V
  apply (putting id v) r = put id v r
  apply (deleting id) r = (delete id r).1

  -- The registry after the calls, of which the latest stands first.
  abbrev pub after : List (Change V) → Registry V
  after [] = new
  after (c ∷ cs) = apply c (after cs)

  -- The value that the latest call for the id has put, if it was a `Put`.
  abbrev pub latest : String → List (Change V) → Option V
  latest id [] = none
  latest id (putting j v ∷ cs) = if j == id then some v else latest id cs
  latest id (deleting j ∷ cs) = if j == id then none else latest id cs

  get-after_put :
      (id j : String) (v : V) (r : Registry V)
      → get id (put j v r) ≡ (if j == id then some v else get id r)
  unfolding get put
  get-after_put id j v r = lookup-insert j id v r.items

  get-after_delete :
      (id j : String) (r : Registry V)
      → get id (delete j r).1 ≡ (if j == id then none else get id r)
  unfolding get delete
  get-after_delete id j r = ground (arith, lookup-erase j id r.items)

  get-after : (id : String) (cs : List (Change V)) → get id (after cs) ≡ latest id cs
  unfolding get lookup
  get-after id [] = refl
  get-after id (putting j v ∷ cs) = ground (arith, get-after_put id j v (after cs), get-after id cs)
  get-after id (deleting j ∷ cs) = ground (arith, get-after_delete id j (after cs), get-after id cs)

  contains-insert :
      (k j : String) (v : V) (m : Dict V)
      → contains (keys (insert k v m)) j ≡ (k == j || contains (keys m) j)
  unfolding insert
  contains-insert k j v [] = ground arith
  contains-insert k j v (e ∷ m) = ground (arith, contains-insert k j v m)

  contains-erase :
      (k j : String) (m : Dict V)
      → contains (keys (erase k m)) j ≡ (not (k == j) && contains (keys m) j)
  unfolding erase
  contains-erase k j [] = ground arith
  contains-erase k j (e ∷ m) = ground (arith, contains-erase k j m)

  insert-IsNodup :
      (k : String) (v : V) (m : Dict V) → IsNodup (keys m) → IsNodup (keys (insert k v m))
  unfolding insert
  insert-IsNodup k v [] h = ground arith
  insert-IsNodup k v ((j, w) ∷ m) h = ground (arith, insert-IsNodup k v m, contains-insert k j v m)

  erase-IsNodup : (k : String) (m : Dict V) → IsNodup (keys m) → IsNodup (keys (erase k m))
  unfolding erase
  erase-IsNodup k [] h = h
  erase-IsNodup k ((j, w) ∷ m) h = ground (arith, erase-IsNodup k m, contains-erase k j m)

  after-IsNodup : (cs : List (Change V)) → IsNodup (keys (after cs).items)
  unfolding put delete
  after-IsNodup [] = tt
  after-IsNodup (putting j v ∷ cs) = insert-IsNodup j v (after cs).items (after-IsNodup cs)
  after-IsNodup (deleting j ∷ cs) =
      ground (arith, after-IsNodup cs, erase-IsNodup j (after cs).items)

  visit_everything : (items : Dict V) → visit (λ id v. true) items ≡ items
  unfolding visit
  visit_everything [] = refl
  visit_everything (e ∷ items) = ap (e ∷◌) (visit_everything items)

  -- What a registry tells by its methods: the value of each id, where a deletion returns the same, and
  -- every entry once, as many as `Len` says, where the loop over `All` goes on.
  pub record Tells (value : String → Option V) (r : Registry V) : Type ℓ where
    pub found : (id : String) → get id r ≡ value id
    pub taken : (id : String) → (delete id r).0 ≡ value id
    pub listed : (id : String) → lookup id (all r (λ k v. true)) ≡ value id
    pub once : IsNodup (keys (all r (λ k v. true)))
    pub counted : length (all r (λ k v. true)) ≡ len r

  -- After any calls of `Put` and `Delete`, the registry has under each id the value that the latest of
  -- the calls for the id has put, and none where that was a deletion: `Get` and `Delete` return it, and
  -- a loop over `All` that is not left early yields each such entry once, as many as `Len` says.
  pub after-Tells : (cs : List (Change V)) → Tells (λ id. latest id cs) (after cs)
  unfolding get delete all len
  after-Tells cs =
      let same = visit_everything (after cs).items in
      record {
        found = λ id. get-after id cs;
        taken = λ id. get-after id cs;
        listed = λ id. ap (lookup id) same ∙ get-after id cs;
        once = subst (λ m. IsNodup (keys m)) (sym same) (after-IsNodup cs);
        counted = ap length same;
      }
