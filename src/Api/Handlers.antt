-- ===== src/Api/Handlers.antt =====
-- internal/api/handlers.go: the handlers.
-- A handler is a function from the manager to a response and the manager after it; headers are left
-- out. What a stream writer writes is the body of the response.
use kotakpasir.Base.{
  ℕ, Bool, true, false, ◌&&◌, ◌||◌, Option, none, some, List, [], ◌∷◌, ◌++◌, map, String,
  if◌then◌else◌, ◌==◌, string_eq, is_empty, Error, is_error, ok, err,
}
use kotakpasir.Base.Dict.{lookup, insert}
use kotakpasir.Base.Int.{ℤ, pos, is_neg}
use kotakpasir.LogBuf
use kotakpasir.LogBuf.{Entry, Stream, stdout, stderr}
use kotakpasir.Policy.{policy_violation}
use kotakpasir.Runtime.{Runtime, Written, no_proxy}
use kotakpasir.Sandbox.{Store, CreateOptions, ExecOptions, not_found}
use kotakpasir.Manager.{Manager}
use kotakpasir.Manager.Create.{create}
use kotakpasir.Manager.Lifecycle.{get, list, delete, stop, proxy_addr}
use kotakpasir.Manager.Logs.{exec, logs, writes}
use kotakpasir.Manager.Health.{health}
use kotakpasir.Sse.{
  Bytes, Chunk, send, write_chunks, stdout_name, stderr_name, exit_name, error_name,
}
use kotakpasir.Api.{Codec, Response, CreateRequest, ExecRequest, to_api, seconds, milliseconds}

abbrev pub options_of : CreateRequest → CreateOptions
options_of req = record {
  name = req.name;
  profile = req.profile;
  image = req.image;
  cmd = req.cmd;
  env = req.env;
  cpus = req.cpus;
  memory_mb = req.memory_mb;
  ttl = seconds req.ttl_sec;
  labels = [];
}

-- The options of `handleExec`, and with `streams` those of `handleExecStream`.
abbrev pub exec_options : ExecRequest → Bool → ExecOptions
exec_options req streams = record {
  cmd = req.cmd;
  env = req.env;
  work_dir = req.work_dir;
  stdin = req.stdin;
  stdout = streams;
  stderr = streams;
}

abbrev pub chunk_of : Written → Chunk
chunk_of w = record { to_stderr = w.to_stderr; bytes = w.bytes }

-- The query of `handleLogs`; a value that is not there is empty.
pub record LogsQuery : Type 0 where
  pub follow : String
  pub tail : String

-- The bytes of the entries, one after the other.
unfoldable pub dump : List Entry → Bytes
dump [] = []
dump (e ∷ es) = e.bytes ++ dump es

-- The closure `emit`.
unfoldable pub emit : Entry → Bytes
emit e = elim e.stream [ stdout ↦ send stdout_name e.bytes | stderr ↦ send stderr_name e.bytes ]

-- The loop over the snapshot, and the one over what the subscription yields.
unfoldable pub emit_all : List Entry → Bytes
emit_all [] = []
emit_all (e ∷ es) = emit e ++ emit_all es

module _ (K : Codec) where
  abbrev pub fail_with : ℕ → String → Response K.Body
  fail_with status told = record { status = status; body = K.error told }

  abbrev pub reply : ℕ → K.Body → Response K.Body
  reply status body = record { status = status; body = body }

  -- The answers to an error of a method that looks a sandbox up.
  abbrev pub lookup_error : Error → Response K.Body
  lookup_error e =
      if is_error e not_found then fail_with 404 "not found" else fail_with 500 (K.text e)

  -- The query value `tail`, 0 where there is none.
  abbrev pub tail_of : String → Option ℤ
  tail_of v =
      if v == ""
      then some (pos 0)
      else elim (K.atoi v) [ err _ ↦ none | ok n ↦ if is_neg n then none else some n ]

  abbrev pub is_follow : String → Bool
  is_follow v = K.equal_fold v "true" || v == "1"

  -- The payload of the `error` event; the text "not found" stands quoted in the source.
  abbrev pub exec_error : Error → Bytes
  exec_error e =
      b'{'
      ∷ b'"'
      ∷ b'e'
      ∷ b'r'
      ∷ b'r'
      ∷ b'o'
      ∷ b'r'
      ∷ b'"'
      ∷ b':'
      ∷ (K.quoted (if is_error e not_found then "not found" else K.text e) ++ (b'}' ∷ []))

abbrev pub Handler : Codec → Runtime → Store → Type 0
Handler K R S = Manager R S → Response K.Body × Manager R S

module _ (K : Codec) {R : Runtime} {S : Store} where
  -- `handleHealth`
  unfoldable pub handle_health : Handler K R S
  handle_health m =
      (reply K (if (health m).status == "ok" then 200 else 503) (K.report (health m)), m)

  -- `handleCreate`
  unfoldable pub handle_create : K.Body → String → ℕ → Handler K R S
  handle_create body id now m = elim (K.create_of body) [
    | err e ↦ (fail_with K 400 (K.text e), m)
    | ok req ↦
        let (r, m') = create (options_of req) id now m in
        if req.image == "" && req.profile == ""
        then (fail_with K 400 "image or profile is required", m)
        else (
          elim r [
            | ok sb ↦ reply K 201 (K.view (to_api sb))
            | err e ↦ fail_with K (if is_error e policy_violation then 400 else 500) (K.text e)
          ],
          m',
        )
  ]

  -- `handleList`
  unfoldable pub handle_list : Handler K R S
  handle_list m =
      let (r, m') = list m in
      (
        elim r [
          | ok sbs ↦ reply K 200 (K.views (map to_api sbs))
          | err e ↦ fail_with K 500 (K.text e)
        ],
        m',
      )

  -- `handleGet`
  unfoldable pub handle_get : String → Handler K R S
  handle_get id m =
      let (r, m') = get id m in
      (elim r [ ok sb ↦ reply K 200 (K.view (to_api sb)) | err e ↦ lookup_error K e ], m')

  -- `handleDelete`
  unfoldable pub handle_delete : String → Handler K R S
  handle_delete id m =
      let (r, m') = delete id m in
      (elim r [ ok _ ↦ reply K 204 K.empty | err e ↦ lookup_error K e ], m')

  -- `handleStop`
  unfoldable pub handle_stop : String → Handler K R S
  handle_stop id m =
      let (r, m') = stop id m in
      (elim r [ ok _ ↦ reply K 204 K.empty | err e ↦ lookup_error K e ], m')

  -- `handleProxy`
  unfoldable pub handle_proxy : String → Handler K R S
  handle_proxy id m =
      let (r, m') = proxy_addr id m in
      (
        elim r [
          | ok address ↦ reply K 200 (K.proxy address)
          | err e ↦
              if is_error e not_found
              then fail_with K 404 "not found"
              else if is_error e no_proxy
              then fail_with K 404 "sandbox has no egress proxy"
              else fail_with K 500 (K.text e)
        ],
        m',
      )

  -- `handleLogs`, up to the end of the snapshot; without `follow` that is all, and the cancel
  -- function has nothing to cancel.
  unfoldable pub handle_logs : String → LogsQuery → Handler K R S
  handle_logs id q m = elim (tail_of K q.tail) [
    | none ↦ (fail_with K 400 "tail must be a non-negative integer", m)
    | some n ↦
        let follow = is_follow K q.follow in
        let (r, m') = logs id (record { tail = n; follow = follow }) m in
        (
          elim r [
            | err e ↦ lookup_error K e
            | ok res ↦
                reply K 200 (K.plain (if follow then emit_all res.snapshot else dump res.snapshot))
          ],
          m',
        )
  ]

  -- `res.Cancel()` at the end of a stream of logs; a buffer that was dropped since is not seen.
  unfoldable pub end_logs : String → ℕ → Manager R S → Manager R S
  end_logs id channel m = elim (lookup id m.logs) [
    | none ↦ m
    | some b ↦ record m { logs = insert id (LogBuf.cancel channel b) m.logs }
  ]

  -- `handleExec`
  unfoldable pub handle_exec : String → K.Body → ℕ → Handler K R S
  handle_exec id body now m = elim (K.exec_of body) [
    | err e ↦ (fail_with K 400 (K.text e), m)
    | ok req ↦
        let (r, m') = exec id (exec_options req false) now m in
        if is_empty req.cmd then (fail_with K 400 "cmd is required", m) else (
          elim r [
            | err e ↦ lookup_error K e
            | ok res ↦ reply K 200 (
                K.exec_response (record {
                  exit_code = res.exit_code;
                  stdout = res.stdout;
                  stderr = res.stderr;
                  duration_ms = milliseconds res.duration;
                }))
          ],
          m',
        )
  ]

  -- `handleExecStream`
  unfoldable pub handle_exec_stream : String → K.Body → ℕ → Handler K R S
  handle_exec_stream id body now m = elim (K.exec_of body) [
    | err e ↦ (fail_with K 400 (K.text e), m)
    | ok req ↦
        let opts = exec_options req true in
        let (r, m') = exec id opts now m in
        let last : Bytes = elim r [
          | err e ↦ send error_name (exec_error K e)
          | ok res ↦ send exit_name (
              K.exit_json
                (record { exit_code = res.exit_code; duration_ms = milliseconds res.duration }))
        ] in
        if is_empty req.cmd
        then (fail_with K 400 "cmd is required", m)
        else (reply K 200 (K.plain (write_chunks (map chunk_of (writes id opts m)) ++ last)), m')
  ]
