-- ===== src/Client/Tests.antt =====
-- A client with the token of a server, over the wire of the API's tests.
use kotakpasir.Base.{
  ℕ, suc, ◌≡◌, ◌≢◌, ◌⊎◌, ◌≤◌, refl, ap, inr, Bool, true, false, none, some, [], ◌∷◌, map, String,
  string_eq, nat_eq, message, Error, is_error, Result, ok, err, ne_of_==, leb, All, subst, sym,
}
use kotakpasir.Base.Int.{ℤ, pos, int_eq}
use kotakpasir.Base.Dict.{lookup}
use kotakpasir.Base.Text.{strip_text}
use kotakpasir.Manager.{Manager, refresh_active}
use kotakpasir.Manager.Create
use kotakpasir.Manager.Pools.{try_claim, pool_matches_resolved}
use kotakpasir.Policy.{find_image}
use kotakpasir.Policy.Resolve.{resolve, apply_global_deny}
use kotakpasir.Pool
use kotakpasir.Store.{put, to_row, scan, get as row_get, list as row_list}
use kotakpasir.Api.Server.{serve, is_bearer, dispatch, handle}
use kotakpasir.Manager.Logs
use kotakpasir.Manager.Logs.{writes}
use kotakpasir.Manager.Tests.{node, disk, disk-Contract}
use kotakpasir.Proxy.Tests.{latin}
use kotakpasir.Runtime.Counting.{counting}
use kotakpasir.Sandbox.{Sandbox, running, not_found, ExecResult}
use kotakpasir.Sse.{Bytes, Chunk, cut}
use kotakpasir.Sse.Tests.{open_sinks}
use kotakpasir.Sse.RoundTrip.{IsClean}
use kotakpasir.Sse.Parse.{PayloadJson, trim_right}
use kotakpasir.Store.Tests.{two-IsNodup}
use kotakpasir.Api.{View, ExecRequest, ExecResponse}
use kotakpasir.Api.Handlers.{handle_create, exec_options, chunk_of}
use kotakpasir.Api.Tests.{Message, told, seen, asked, ran, bytes, replied, simple, guarded, noon}
use kotakpasir.Client.{Decoder, Answer, fine, CreateOptions, request_of, do_decode, call}
use kotakpasir.Client.Methods.{create, get, exec_stream}
use kotakpasir.Client.Wire.{IsWire, wired}
use kotakpasir.Client.Journeys.{create-get}
use kotakpasir.Client.Streams.{exit_of, exec_stream_delivers}
use kotakpasir.Client.Wait.{Waited, cancelled, Undecided, Decides, wait_for, wait_for_outcome}

abbrev view_of : Message → Result View
view_of (seen v) = ok v
view_of _ = err (message "unexpected message" [])

abbrev error_of : Message → String
error_of (told s) = s
error_of _ = ""

abbrev bytes_of : Message → Bytes
bytes_of (bytes b) = b
bytes_of _ = []

abbrev exec_of : Message → Result ExecResponse
exec_of (replied r) = ok r
exec_of _ = err (message "unexpected message" [])

abbrev pub plain : Decoder Message
plain = record {
  create_body = asked;
  exec_body = ran;
  view_of = view_of;
  views_of = λ (b : Message). ok [];
  exec_of = exec_of;
  error_of = error_of;
  trimmed = λ (b : Message). "";
  bytes = bytes_of;
  status_text = λ (n : ℕ). "";
  itoa = λ (n : ℤ). "1";
}

pub plain-IsWire : IsWire simple plain
plain-IsWire = record { view_law = λ v. refl; error_law = λ s. refl; bytes_law = λ b. refl }

abbrev alpine_options : CreateOptions
alpine_options = record {
  name = "scratch";
  profile = "";
  image = "alpine:latest";
  cmd = [];
  env = [];
  cpus = pos 0;
  memory_mb = pos 0;
  ttl = pos 90500000000;
}

abbrev scratch : View
scratch = record { id = "new"; name = "scratch"; image = "alpine:latest"; state = running }

new_filled : noon.new_id ≢ ""
unfolding string_eq
new_filled = ne_of_== noon.new_id "" refl

pub job_filled : ◌≢◌ {A = String} "job" ""
unfolding string_eq
job_filled = ne_of_== "job" "" refl

alpine_created :
    (create latin plain "secret"
      (wired simple {R = counting} {S = disk} guarded noon)
      alpine_options
      node).0
    ≡ fine scratch
unfolding create do_decode call serve string_eq is_bearer strip_text nat_eq dispatch handle
    handle_create request_of Create.create resolve find_image try_claim lookup pool_matches_resolved
    int_eq Pool.get put apply_global_deny Create.new_sandbox
alpine_created = refl

abbrev with_scratch : Manager counting disk
with_scratch =
    (create latin plain "secret" (wired simple {R = counting} {S = disk} guarded noon)
      alpine_options node).1

abbrev is_found : Result Sandbox → Bool
is_found (ok sb) = true
is_found (err e) = false

scratch_found : is_found (disk.get scratch.id with_scratch.db).0 ≡ true
unfolding create do_decode call serve string_eq is_bearer strip_text nat_eq dispatch handle
    handle_create request_of Create.create resolve find_image try_claim lookup pool_matches_resolved
    int_eq Pool.get put apply_global_deny Create.new_sandbox row_get scan to_row refresh_active
    row_list
scratch_found = refl

scratch_honest :
    (e : Error)
    → (disk.get scratch.id with_scratch.db).0 ≡ err e
    → is_error e not_found ≡ true
    → disk-Contract.contents with_scratch.db scratch.id ≡ none
scratch_honest e h lost = cc (ap is_found h, scratch_found)

create-get_example :
    let n =
      (create latin plain "secret"
        (wired simple {R = counting} {S = disk} guarded noon)
        alpine_options
        node).1 in
    (scratch.id ≡ noon.new_id)
    × (scratch.state ≡ running)
    × (((get latin plain "secret" (wired simple guarded noon) scratch.id n).0 ≡ fine scratch)
        ⊎ ((e : Error) × ((disk.get scratch.id n.db).0 ≡ err e) × (is_error e not_found ≡ false)))
create-get_example =
    create-get simple latin plain plain-IsWire disk-Contract guarded "secret" (inr refl) noon noon
      alpine_options node scratch two-IsNodup new_filled refl alpine_created scratch_honest

abbrev echo : ExecRequest
echo = record { cmd = "echo" ∷ "ok" ∷ []; env = []; work_dir = ""; stdin = [] }

abbrev pub echoed : ExecResult
echoed = record { exit_code = pos 0; stdout = []; stderr = []; duration = pos 1 }

abbrev pub one_exit : PayloadJson
one_exit = record {
  exit_of = λ (text : Bytes). ok (exit_of echoed);
  error_of = λ (text : Bytes). "";
  text = λ (text : Bytes). "";
}

abbrev pub ok_chunk : Chunk
ok_chunk = record { to_stderr = false; bytes = b'o' ∷ b'k' ∷ b'\n' ∷ [] }

echo-exec : (Logs.exec "job" (exec_options echo true) noon.now node).0 ≡ ok echoed
unfolding Logs.exec string_eq row_get to_row scan
echo-exec = refl

echo-writes : map chunk_of (writes "job" (exec_options echo true) node) ≡ ok_chunk ∷ []
unfolding writes string_eq row_get to_row scan
echo-writes = refl

pub ok_chunk-IsClean : All (λ c. IsClean c.bytes) (ok_chunk ∷ [])
unfolding cut trim_right nat_eq
ok_chunk-IsClean = (record { starts = refl; first = refl; others = (refl, tt) }, tt)

pub payload-IsClean : IsClean (b'0' ∷ [])
unfolding cut trim_right nat_eq
payload-IsClean = record { starts = refl; first = refl; others = tt }

exec_stream_delivers_example :
    (exec_stream latin plain "secret"
      (wired simple guarded noon)
      one_exit
      open_sinks
      none
      "job"
      echo
      node).0
    ≡ fine (
      record { result = some (exit_of echoed); error = none },
      map chunk_of (writes "job" (exec_options echo true) node),
    )
exec_stream_delivers_example =
    exec_stream_delivers simple latin plain plain-IsWire one_exit open_sinks none guarded "secret"
      noon "job" echo node echoed (inr refl) job_filled refl refl echo-exec refl refl (λ ws. refl)
      (subst (All (λ c. IsClean c.bytes)) (sym echo-writes) ok_chunk-IsClean) payload-IsClean refl

-- A sandbox that runs from the third look on.
abbrev looks : ℕ → Answer View × ℕ
looks n =
    (fine (record scratch { state = elim (leb 2 n) [ true ↦ running | false ↦ "created" ] }), suc n)

wait_for_outcome_example :
    ((k : ℕ) × (t : ℕ) × (w : Waited) × (k ≤ 5)
      × Undecided looks running k 0 t
      × (Decides running (looks t).0 w)
      × (wait_for looks running 5 0 ≡ (w, (looks t).1)))
    ⊎ ((t : ℕ) × Undecided looks running 6 0 t × (wait_for looks running 5 0 ≡ (cancelled, t)))
wait_for_outcome_example = wait_for_outcome looks running 5 0
