-- ===== src/Manager/Overlap/Tests.antt =====
-- A `Stop` and a `Delete` of one sandbox that overlap, next to another sandbox.
use kotakpasir.Base.{◌≡◌, refl, List, [], ◌∷◌, string_eq, nat_eq, ne_of_==, All, ok, some, ℕ}
use mathlib.Core.Option
use kotakpasir.Runtime.Counting.{counting}
use kotakpasir.Sandbox.{Sandbox, stopped}
use kotakpasir.Store.{get, to_row, put, scan, list, delete as row_delete}
use kotakpasir.Store.Codec.{codec}
use kotakpasir.Store.Contents.{contents}
use kotakpasir.Store.Tests.{two-IsNodup}
use kotakpasir.Manager.{refresh_active, drop_log_buffer}
use kotakpasir.Manager.Tests.{node, disk, disk-Contract}
use kotakpasir.Manager.Overlap.{Task, to_stop, to_delete, finished, advance, advance_at, interleave}
use kotakpasir.Manager.Overlap.Isolation.{IsElsewhere, interleave-Spares}

abbrev calls : List Task
calls = to_stop "job" ∷ to_delete "job" ∷ []

-- `Stop` has stopped the container, then all of `Delete` runs, and then `Stop` puts the sandbox back.
abbrev late_stop : List ℕ
late_stop = 0 ∷ 0 ∷ 1 ∷ 1 ∷ 1 ∷ 1 ∷ 1 ∷ 0 ∷ 0 ∷ []

calls-IsElsewhere : All (IsElsewhere "shell") calls
unfolding string_eq
calls-IsElsewhere = (ne_of_== "job" "shell" refl, (ne_of_== "job" "shell" refl, tt))

interleave-Spares_example :
    let n = (interleave {R = counting} {S = disk} late_stop calls node).1 in
    disk-Contract.IsGood n.db
    × (disk-Contract.contents n.db "shell" ≡ disk-Contract.contents node.db "shell")
interleave-Spares_example =
    interleave-Spares disk-Contract "shell" late_stop calls node two-IsNodup calls-IsElsewhere

both_fine :
    (interleave {R = counting} {S = disk} late_stop calls node).0
    ≡ finished (ok tt) ∷ finished (ok tt) ∷ []
unfolding interleave advance_at advance get string_eq to_row put row_delete scan nat_eq
    refresh_active list drop_log_buffer
both_fine = refl

-- Both calls have succeeded, and the deleted sandbox is in the store.
back_again :
    Option.map
      (λ (sb : Sandbox). sb.state)
      (contents codec (interleave {R = counting} {S = disk} late_stop calls node).1.db "job")
    ≡ some stopped
unfolding interleave contents advance_at advance get string_eq to_row put row_delete scan nat_eq
    refresh_active list drop_log_buffer
back_again = refl
