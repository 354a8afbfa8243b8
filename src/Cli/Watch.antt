-- ===== src/Cli/Watch.antt =====
-- cmd/kp/extra.go: `watch`, which polls the server. The context is the number of ticks that come before it is
-- done. `poll` and `poll_all` are `Get` of the sandbox and `List`; `stamp` is the formatted time at a
-- state of the world; `by_id` is `sort.Slice` by id.
use kotakpasir.Base.{
  ℕ, zero, suc, Option, none, some, List, [], ◌∷◌, ◌++◌, map, String, ◌<>◌, if◌then◌else◌, ◌==◌,
  string_eq, contains,
}
use kotakpasir.Base.Dict.{Dict, lookup, insert}
use kotakpasir.Base.Int.{ℤ, is_pos}
use kotakpasir.Api.{View}
use kotakpasir.Client.{Answer, fine, failed}
use kotakpasir.Cli.{failing, panicked, Printed, line, row, Ran, done, give_up}
use kotakpasir.Cli.Commands.{short}

-- The output that comes before what a later round prints.
abbrev pub before {ℓ} : {St : Type ℓ} → List Printed → Ran × St → Ran × St
before out (r, s) = (record r { output = out ++ r.output }, s)

-- `prev[id]`, empty where there is none.
abbrev pub state_in : String → Dict String → String
state_in id prev = elim (lookup id prev) [ some st ↦ st | none ↦ "" ]

-- The rows of the loop over the listing, and `prev` behind it.
unfoldable pub mark_changed : String → List View → Dict String → List (List String) × Dict String
mark_changed now [] prev = ([], prev)
mark_changed now (sb ∷ sbs) prev =
    let same = state_in sb.id prev == sb.state in
    let (rows, prev') = mark_changed now sbs (if same then prev else insert sb.id sb.state prev) in
    (if same then rows else (now ∷ short sb.id ∷ sb.state ∷ sb.image ∷ []) ∷ rows, prev')

-- The loop over `prev` that prints what is gone and deletes it.
unfoldable pub drop_gone : String → List String → Dict String → List (List String) × Dict String
drop_gone now seen [] = ([], [])
drop_gone now seen ((id, st) ∷ prev) =
    let (rows, rest) = drop_gone now seen prev in
    if contains seen id
    then (rows, (id, st) ∷ rest)
    else ((now ∷ short id ∷ "removed" ∷ ("(was " <> (st <> ")")) ∷ []) ∷ rows, rest)

-- One round of `watchAll` behind the sorted listing.
unfoldable pub watch_round : String → List View → Dict String → List (List String) × Dict String
watch_round now list prev =
    let (changed, marked) = mark_changed now list prev in
    let (gone, kept) = drop_gone now (map (λ (sb : View). sb.id) list) marked in
    (changed ++ gone, kept)

module _ {ℓ} {St : Type ℓ} (stamp : St → String) where
  -- The line of a state that is another than the last one printed.
  news : View → String → St → List Printed
  news sb prev s =
      if sb.state == prev
      then []
      else line (stamp s <> ("  " <> (short sb.id <> ("  " <> sb.state)))) ∷ []

  -- `watchOne`, from a state of its loop on.
  unfoldable pub watch_one : (St → Answer View × St) → ℕ → String → St → Ran × St
  unfolding news
  watch_one poll zero prev s =
      let (r, s') = poll s in
      (elim r [ failed e ↦ give_up (failing e) | fine sb ↦ done (news sb prev s') ], s')
  watch_one poll (suc n) prev s =
      let (r, s') = poll s in
      elim r [
        | failed e ↦ (give_up (failing e), s')
        | fine sb ↦ before (news sb prev s') (watch_one poll n sb.state s')
      ]

  -- `watchAll`, from a state of its loop on.
  unfoldable pub watch_all :
      (List View → List View) → (St → Answer (List View) × St) → ℕ → Dict String → St → Ran × St
  unfolding watch_round
  watch_all by_id poll_all zero prev s =
      let (r, s') = poll_all s in
      (
        elim r [
          | failed e ↦ give_up (failing e)
          | fine list ↦ done (map row (watch_round (stamp s') (by_id list) prev).0)
        ],
        s',
      )
  watch_all by_id poll_all (suc n) prev s =
      let (r, s') = poll_all s in
      elim r [
        | failed e ↦ (give_up (failing e), s')
        | fine list ↦
            let (rows, prev') = watch_round (stamp s') (by_id list) prev in
            before (map row rows) (watch_all by_id poll_all n prev' s')
      ]

  -- `watch`; `time.NewTicker` panics on an interval that is not positive.
  unfoldable pub run_watch :
      (List View → List View)
      → (String → St → Answer View × St)
      → (St → Answer (List View) × St)
      → ℤ
      → ℕ
      → Option String
      → St
      → Ran × St
  unfolding watch_one watch_all
  run_watch by_id poll poll_all interval n id s =
      if is_pos interval
      then (elim id [
        | some id' ↦ watch_one (poll id') n "" s
        | none ↦ watch_all by_id poll_all n [] s
      ])
      else (give_up panicked, s)
