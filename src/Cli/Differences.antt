-- ===== src/Cli/Differences.antt =====
-- The two loops of a round of `watch`: what differs from one listing of all sandboxes to the next.
use kotakpasir.Base.{
  ◌≡◌, ◌≢◌, refl, inl, inr, true, false, not, ◌&&◌, ◌||◌, Option, none, some, List, [], ◌∷◌, map,
  String, ◌<>◌, if◌then◌else◌, ◌==◌, string_eq, contains, All, IsNodup, arith, Bool-cases,
  Option-cases, ==_refl,
}
use kotakpasir.Base.Dict.{Dict, lookup, insert, keys, lookup-insert}
use kotakpasir.Api.{View}
use kotakpasir.Cli.Commands.{short}
use kotakpasir.Cli.Watch.{mark_changed, drop_gone}

abbrev pub ids : List View → List String
ids = map (λ (sb : View). sb.id)

-- The state in which a listing has a sandbox; the last entry counts.
abbrev pub stated : String → List View → Option String
stated id [] = none
stated id (sb ∷ sbs) = elim (stated id sbs) [
  | some st ↦ some st
  | none ↦ if sb.id == id then some sb.state else none
]

-- The sandboxes that the older listing does not have in the same state.
abbrev pub changed : List View → List View → List View
changed old [] = []
changed old (sb ∷ sbs) =
    let rest = changed old sbs in
    elim (stated sb.id old) [
      | some st ↦ if st == sb.state then rest else sb ∷ rest
      | none ↦ sb ∷ rest
    ]

abbrev pub change_row : String → View → List String
change_row now sb = now ∷ short sb.id ∷ sb.state ∷ sb.image ∷ []

abbrev pub gone_row : String → String × String → List String
gone_row now (id, st) = now ∷ short id ∷ "removed" ∷ ("(was " <> (st <> ")")) ∷ []

-- The entries of ids that are not in the listing.
abbrev pub missing : List String → Dict String → Dict String
missing seen [] = []
missing seen ((id, st) ∷ prev) =
    let rest = missing seen prev in if contains seen id then rest else (id, st) ∷ rest

pub stated_unlisted :
    (id : String) (list : List View) → contains (ids list) id ≡ false → stated id list ≡ none
stated_unlisted id [] h = refl
stated_unlisted id (sb ∷ sbs) h = ground (arith, stated_unlisted id sbs)

pub stated_listed :
    (id : String) (list : List View)
    → contains (ids list) id ≡ true
    → (st : String) × (stated id list ≡ some st)
stated_listed id [] h = cc h
stated_listed id (sb ∷ sbs) h = elim (Option-cases (stated id sbs)) [
  | inr (st, e) ↦ (st, ground (arith, e))
  | inl e ↦ elim (Bool-cases (contains (ids sbs) id)) [
    | inl more ↦ let (st, e') = stated_listed id sbs more in cc (e, e')
    | inr over ↦ (sb.state, ground (arith, e, over, h))
  ]
]

pub contains-insert :
    (k j v : String) (m : Dict String)
    → contains (keys (insert k v m)) j ≡ (k == j || contains (keys m) j)
unfolding insert
contains-insert k j v [] = ground arith
contains-insert k j v ((i, w) ∷ m) = ground (arith, contains-insert k j v m)

pub insert-IsNodup :
    (k v : String) (m : Dict String) → IsNodup (keys m) → IsNodup (keys (insert k v m))
unfolding insert
insert-IsNodup k v [] h = ground arith
insert-IsNodup k v ((j, w) ∷ m) h = ground (arith, insert-IsNodup k v m, contains-insert k j v m)

pub mark_distinct :
    (now : String) (list : List View) (prev : Dict String)
    → IsNodup (keys prev)
    → IsNodup (keys (mark_changed now list prev).1)
unfolding mark_changed
mark_distinct now [] prev h = h
mark_distinct now (sb ∷ sbs) prev h = ground (
  arith,
  mark_distinct now sbs prev,
  mark_distinct now sbs (insert sb.id sb.state prev),
  insert-IsNodup sb.id sb.state prev,
)

-- The listing wins over what was known.
pub mark_lookup :
    (now id : String) (list : List View) (prev : Dict String)
    → All (λ (sb : View). sb.state ≢ "") list
    → lookup id (mark_changed now list prev).1
      ≡ (elim (stated id list) [ some st ↦ some st | none ↦ lookup id prev ])
unfolding mark_changed
mark_lookup now id [] prev h = refl
mark_lookup now id (sb ∷ sbs) prev h = ground (
  arith,
  h,
  mark_lookup now id sbs prev h.1,
  mark_lookup now id sbs (insert sb.id sb.state prev) h.1,
  lookup-insert sb.id id sb.state prev,
)

-- The rows, where the loop knows the older listing of each sandbox that is still to come.
pub mark_rows :
    (now : String) (old list : List View) (prev : Dict String)
    → All (λ (sb : View). sb.state ≢ "") list
    → IsNodup (ids list)
    → ((id : String) → contains (ids list) id ≡ true → lookup id prev ≡ stated id old)
    → (mark_changed now list prev).0 ≡ map (change_row now) (changed old list)
unfolding mark_changed
mark_rows now old [] prev full once h = refl
mark_rows now old (sb ∷ sbs) prev full once h =
    let head = h sb.id (ground (arith, ==_refl sb.id)) in
    let rest : (id : String) → contains (ids sbs) id ≡ true → lookup id prev ≡ stated id old =
      λ id more. h id (ground (arith, more)) in
    let rest' : (id : String)
        → contains (ids sbs) id ≡ true
        → lookup id (insert sb.id sb.state prev) ≡ stated id old =
      λ id more. ground (arith, once, rest id more, lookup-insert sb.id id sb.state prev) in
    ground (
      arith,
      head,
      full,
      mark_rows now old sbs prev full.1 once.1 rest,
      mark_rows now old sbs (insert sb.id sb.state prev) full.1 once.1 rest',
    )

pub drop_rows :
    (now : String) (seen : List String) (prev : Dict String)
    → (drop_gone now seen prev).0 ≡ map (gone_row now) (missing seen prev)
unfolding drop_gone
drop_rows now seen [] = refl
drop_rows now seen ((id, st) ∷ prev) = ground (arith, drop_rows now seen prev)

pub drop_lookup :
    (now id : String) (seen : List String) (prev : Dict String)
    → lookup id (drop_gone now seen prev).1 ≡ (if contains seen id then lookup id prev else none)
unfolding drop_gone lookup
drop_lookup now id seen [] = ground arith
drop_lookup now id seen ((j, st) ∷ prev) = ground (arith, drop_lookup now id seen prev)

pub drop_keys :
    (now id : String) (seen : List String) (prev : Dict String)
    → contains (keys (drop_gone now seen prev).1) id ≡ (contains (keys prev) id && contains seen id)
unfolding drop_gone
drop_keys now id seen [] = refl
drop_keys now id seen ((j, st) ∷ prev) = ground (arith, drop_keys now id seen prev)

pub drop_distinct :
    (now : String) (seen : List String) (prev : Dict String)
    → IsNodup (keys prev)
    → IsNodup (keys (drop_gone now seen prev).1)
unfolding drop_gone
drop_distinct now seen [] h = h
drop_distinct now seen ((j, st) ∷ prev) h =
    ground (arith, h, drop_distinct now seen prev, drop_keys now j seen prev)

pub missing-keys :
    (id : String) (seen : List String) (prev : Dict String)
    → contains (keys (missing seen prev)) id ≡ (contains (keys prev) id && not (contains seen id))
missing-keys id seen [] = refl
missing-keys id seen ((j, st) ∷ prev) = ground (arith, missing-keys id seen prev)

pub missing_distinct :
    (seen : List String) (prev : Dict String)
    → IsNodup (keys prev)
    → IsNodup (keys (missing seen prev))
missing_distinct seen [] h = h
missing_distinct seen ((j, st) ∷ prev) h =
    ground (arith, h, missing_distinct seen prev, missing-keys j seen prev)

pub keys_of_lookup :
    (id st : String) (prev : Dict String)
    → lookup id prev ≡ some st
    → contains (keys prev) id ≡ true
unfolding lookup
keys_of_lookup id st [] h = cc h
keys_of_lookup id st ((j, w) ∷ prev) h = ground (arith, h, keys_of_lookup id st prev)

pub lookup-none_of_keys :
    (id : String) (prev : Dict String) → contains (keys prev) id ≡ false → lookup id prev ≡ none
unfolding lookup
lookup-none_of_keys id [] h = refl
lookup-none_of_keys id ((j, w) ∷ prev) h = ground (arith, h, lookup-none_of_keys id prev)

-- What holds of the entries that are missing holds of the missing entries.
pub missing_left :
    (P : String → String → Type 0) (seen : List String) (prev : Dict String)
    → IsNodup (keys prev)
    → ((id st : String) → lookup id prev ≡ some st → contains seen id ≡ false → P id st)
    → All (λ (id, st). P id st) (missing seen prev)
unfolding lookup
missing_left P seen [] once h = tt
missing_left P seen ((j, w) ∷ prev) once h =
    let rest =
      missing_left P seen prev once.1
        (λ id st e. h id st (ground (arith, e, once, lookup-none_of_keys j prev))) in
    let head = h j w (ground (arith, ==_refl j)) in
    elim (Bool-cases (contains seen j)) [
      | inl here ↦ rw here rest
      | inr out ↦ rw out (head out, rest)
    ]
