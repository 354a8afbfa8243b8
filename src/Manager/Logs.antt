-- ===== src/Manager/Logs.antt =====
-- internal/sandbox/manager.go: `Exec`, `Logs` and `tailLines`.
pub mod Tail
pub mod Running
use kotakpasir.Base.{
  ℕ, zero, suc, ◌+◌, Bool, true, false, not, ◌&&◌, ◌||◌, Option, none, some, List, [], ◌∷◌, ◌++◌,
  String, if◌then◌else◌, ◌==◌, string_eq, nat_eq, is_empty, leb, message, Error, Result, ok, err,
  reverse,
}
use kotakpasir.Base.Dict.{insert}
use kotakpasir.Base.Int.{ℤ, is_pos, to_ℕ}
use kotakpasir.Base.State.{Method, return, fail, modify, ◌>>=◌, ◌>>◌}
use mathlib.Core.Option
use kotakpasir.LogBuf
use kotakpasir.LogBuf.{Buffer, Entry, stdout, stderr}
use kotakpasir.Runtime
use kotakpasir.Runtime.{Runtime, ExecSpec, Written}
use kotakpasir.Sandbox.{Sandbox, Store, ExecOptions, ExecResult, running}
use kotakpasir.Manager.{Manager, on_store, on_runtime, log_buffer_for}
use kotakpasir.Manager.Lifecycle.{get}

abbrev pub spec_of : ExecOptions → ExecSpec
spec_of opts = record {
  cmd = opts.cmd;
  env = opts.env;
  work_dir = opts.work_dir;
  stdin = if is_empty opts.stdin then none else some opts.stdin;
  stdout = opts.stdout;
  stderr = opts.stderr;
}

-- What the tee'd writers put into the buffer while the command runs: `io.MultiWriter` stands only
-- where the caller passed a writer.
tee : ExecOptions → List Written → Buffer → Buffer
tee opts [] b = b
tee opts (w ∷ ws) b = tee opts ws (
    if w.to_stderr
    then (if opts.stderr then LogBuf.write stderr w.bytes w.at b else b)
    else (if opts.stdout then LogBuf.write stdout w.bytes w.at b else b))

-- What is appended after a buffered command.
append_output : ExecOptions → Runtime.ExecResult → ℕ → Buffer → Buffer
append_output opts res now b =
    let b' =
      if not opts.stdout && not (is_empty res.stdout)
      then LogBuf.write stdout res.stdout now b
      else b in
    if not opts.stderr && not (is_empty res.stderr)
    then LogBuf.write stderr res.stderr now b'
    else b'

-- The line feeds in a chunk.
unfoldable pub newlines : List ℕ → ℕ
newlines [] = 0
newlines (c ∷ cs) = (if c == b'\n' then 1 else 0) + newlines cs

-- The loop of `tailLines`, over the entries from the last to the first; `kept` is `snap[i+1:]`.
tail_loop : ℕ → ℕ → List Entry → List Entry → List Entry
tail_loop n count [] kept = kept
tail_loop n count (e ∷ before) kept =
    let more = tail_loop n (count + newlines e.bytes) before (e ∷ kept) in
    if leb n (count + newlines e.bytes) then e ∷ kept else more

-- `tailLines`
unfoldable pub tail_lines : ℤ → List Entry → List Entry
unfolding tail_loop newlines
tail_lines n snap =
    if not (is_pos n) || is_empty snap then snap else tail_loop (to_ℕ n) 0 (reverse snap) []

-- `LogsOptions` and `LogsResult`; `subscribed` is the id of the channel.
pub record LogsOptions : Type 0 where
  pub tail : ℤ
  pub follow : Bool

pub record LogsResult : Type 0 where
  pub snapshot : List Entry
  pub subscribed : Option ℕ

module _ {R : Runtime} {S : Store} where
  -- A change of a sandbox's buffer, where it has one.
  save_buffer : String → Option Buffer → Manager R S → Manager R S
  save_buffer id none m = m
  save_buffer id (some b) m = record m { logs = insert id b m.logs }

  -- The part of `Exec` behind the test of the state.
  exec_running : String → Sandbox → ExecOptions → ℕ → Method (Manager R S) ExecResult
  unfolding tee append_output save_buffer
  exec_running id sb opts now m =
      let (buffer, m') = log_buffer_for id m in
      let (res, written, world) = R.exec sb.runtime_id (spec_of opts) m'.world in
      let teed = Option.map (tee opts written) buffer in
      let m'' = save_buffer id teed (record m' { world = world }) in
      elim res [
        | err e ↦ (err e, m'')
        | ok r ↦ (
          ok (record {
            exit_code = r.exit_code;
            stdout = r.stdout;
            stderr = r.stderr;
            duration = r.duration;
          }),
          save_buffer id (Option.map (append_output opts r now) teed) m'',
        )
      ]

  -- `Exec`; `now` is the time at which a buffered command's output is appended.
  unfoldable pub exec : String → ExecOptions → ℕ → Method (Manager R S) ExecResult
  unfolding exec_running get
  exec id opts now = do
    sb ← get id
    if sb.state == running
        then exec_running id sb opts now
        else fail (message "sandbox %s is %s, not running" (id ∷ sb.state ∷ []))

  -- What the command of an `Exec` writes to the writers that the caller passed.
  unfoldable pub writes : String → ExecOptions → Manager R S → List Written
  unfolding get
  writes id opts m =
      let (r, m') = get id m in
      elim r [
        | err _ ↦ []
        | ok sb ↦
            if sb.state == running then (R.exec sb.runtime_id (spec_of opts) m'.world).1 else []
      ]

  -- `Logs`
  unfoldable pub logs : String → LogsOptions → Method (Manager R S) LogsResult
  unfolding get save_buffer
  logs id opts = do
    _ ← get id
    λ m.
        let (buffer, m') = log_buffer_for id m in
        elim buffer [
          | none ↦ (ok (record { snapshot = []; subscribed = none }), m')
          | some b ↦
              let (channel, b') = LogBuf.subscribe b in
              let snap = tail_lines opts.tail (LogBuf.snapshot b) in
              if opts.follow
              then (
                ok (record { snapshot = snap; subscribed = some channel }),
                save_buffer id (some b') m',
              )
              else (ok (record { snapshot = snap; subscribed = none }), m')
        ]
