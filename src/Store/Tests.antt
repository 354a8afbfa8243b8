-- ===== src/Store/Tests.antt =====
-- A table with two sandboxes, one of which expires.
use kotakpasir.Base.{
  ◌*◌, ◌≡◌, refl, ◌⊎◌, false, none, some, List, [], ◌∷◌, map, if◌then◌else◌, ◌==◌, string_eq,
  contains, IsNodup, Error, ok, err,
}
use kotakpasir.Base.Int.{pos}
use kotakpasir.Sandbox.{Sandbox, running, stopped}
use kotakpasir.Store.{Database, put, expired_before, second, unix, to_row, scan}
use kotakpasir.Store.Table.{order_by, sooner, select_expired, select_id}
use kotakpasir.Store.Contents.{contents, ids, kept, put_outcome}
use kotakpasir.Store.Expiry.{due?, IsByExpiry, expired_before_outcome}
use kotakpasir.Store.Codec.{codec, codec-IsJson}

abbrev pub job : Sandbox
job = record {
  id = "job";
  name = "nightly";
  image = "alpine:latest";
  runtime_id = "c1";
  state = running;
  cpus = pos 1000000000;
  memory_mb = pos 512;
  env = ("LANG", "C") ∷ [];
  labels = [];
  created_at = 1500000000;
  expires_at = some 4500000000;
}

abbrev pub shell : Sandbox
shell = record job { id = "shell"; runtime_id = "c2"; expires_at = none }

abbrev pub two : Database
two = record { rows = to_row codec job ∷ to_row codec shell ∷ []; faults = [] }

pub two-IsNodup : IsNodup (ids codec two)
unfolding to_row string_eq
two-IsNodup = (refl, (refl, tt))

put_outcome_example :
    let r = put codec (record job { state = stopped }) two in
    IsNodup (ids codec r.1)
    × (((r.0 ≡ ok tt)
          × (contents codec r.1 "job" ≡ (
              if job.id == job.id
              then some (kept codec (record job { state = stopped }) (contents codec two "job"))
              else contents codec two "job")))
        ⊎ ((e : Error) × (r.0 ≡ err e) × (r.1.rows ≡ two.rows)))
put_outcome_example =
    put_outcome codec codec-IsJson (record job { state = stopped }) two "job" two-IsNodup

abbrev due_list : List Sandbox
due_list = map (scan codec) (order_by sooner (select_expired (unix (6 * second)) two.rows))

two-expired : (expired_before codec (6 * second) two).0 ≡ ok due_list
unfolding expired_before
two-expired = refl

expired_before_outcome_example :
    (contains (map (λ sb. sb.id) due_list) "job" ≡ due? (6 * second) (contents codec two "job"))
    × IsByExpiry due_list
    × ((expired_before codec (6 * second) two).1.rows ≡ two.rows)
expired_before_outcome_example =
    expired_before_outcome codec (6 * second) two due_list "job" two-IsNodup two-expired

pub shell_spared : due? (9 * second) (contents codec two "shell") ≡ false
unfolding contents select_id string_eq to_row scan
shell_spared = refl
