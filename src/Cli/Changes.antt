-- ===== src/Cli/Changes.antt =====
-- What `watch` of all sandboxes prints: the differences between one listing and the next.
use kotakpasir.Base.{
  ◌≡◌, ◌≢◌, ◌∙◌, inl, inr, true, false, some, List, ◌++◌, map, String, string_eq, contains, All,
  IsNodup, arith, Bool-cases,
}
use kotakpasir.Base.Dict.{Dict, lookup, keys}
use kotakpasir.Api.{View}
use kotakpasir.Cli.Watch.{mark_changed, watch_round}
use kotakpasir.Cli.Differences.{
  ids, stated, changed, change_row, gone_row, missing, stated_unlisted, stated_listed,
  mark_distinct, mark_lookup, mark_rows, drop_rows, drop_lookup, drop_distinct, missing-keys,
  missing_distinct, keys_of_lookup, missing_left,
}

-- What the loop remembers of a listing.
pub record Knows (prev : Dict String) (list : List View) : Type 0 where
  pub distinct : IsNodup (keys prev)
  pub same : (id : String) → lookup id prev ≡ stated id list

-- A round: the rows are those of the changed sandboxes and then one for each that is gone, with the
-- state that it had; and the loop remembers the new listing.
pub record IsRound (now : String) (old list : List View) (r : List (List String) × Dict String)
    : Type 0 where
  pub gone : Dict String
  pub rows : r.0 ≡ map (change_row now) (changed old list) ++ map (gone_row now) gone
  pub left : All (λ (id, st). (stated id old ≡ some st) × (contains (ids list) id ≡ false)) gone
  pub complete :
      (id st : String)
      → stated id old ≡ some st
      → contains (ids list) id ≡ false
      → contains (keys gone) id ≡ true
  pub once : IsNodup (keys gone)
  pub knows : Knows r.1 list

-- One round of `watch`, where the loop remembers the last listing and the new one names no sandbox
-- twice and has no empty state: it prints a row for each sandbox that is new or has another state
-- than in the last listing, in the order of the new one, and then one row for each sandbox that is
-- gone; and it remembers the new listing.
pub watch_round_outcome :
    (now : String) (old list : List View) (prev : Dict String)
    → Knows prev old
    → IsNodup (ids list)
    → All (λ (sb : View). sb.state ≢ "") list
    → IsRound now old list (watch_round now list prev)
unfolding watch_round
watch_round_outcome now old list prev known once full =
    let marked = (mark_changed now list prev).1 in
    let looked = λ (id : String). mark_lookup now id list prev full in
    let unlisted : (id : String)
        → contains (ids list) id ≡ false
        → lookup id marked ≡ stated id old =
      λ id out. ground (arith, looked id, stated_unlisted id list out, known.same id) in
    let distinct = mark_distinct now list prev known.distinct in
    record {
      gone = missing (ids list) marked;
      rows = ground (
        arith,
        mark_rows now old list prev full once (λ id _. known.same id),
        drop_rows now (ids list) marked,
      );
      left =
          missing_left (λ id st. (stated id old ≡ some st) × (contains (ids list) id ≡ false))
            (ids list) marked distinct (λ id st e out. (ground (arith, e, unlisted id out), out));
      complete = λ id st e out. ground (
        arith,
        out,
        missing-keys id (ids list) marked,
        keys_of_lookup id st marked (unlisted id out ∙ e),
      );
      once = missing_distinct (ids list) marked distinct;
      knows = record {
        distinct = drop_distinct now (ids list) marked distinct;
        same = λ id. elim (Bool-cases (contains (ids list) id)) [
          | inr out ↦
              ground (arith, out, drop_lookup now id (ids list) marked, stated_unlisted id list out)
          | inl here ↦
              let (st, e) = stated_listed id list here in
              ground (arith, here, e, drop_lookup now id (ids list) marked, looked id)
        ];
      };
    }
