-- ===== src/Docker/Exec.antt =====
-- internal/runtime/docker/docker.go: `Exec`, `Stop` and `Status`, over the calls of the Docker client that
-- they make. What `stdcopy` reads is a list of writes and the error that it ends with, `none` for the
-- end of the stream; the copying of the input is left to the client.
use kotakpasir.Base.{
  ℕ, ◌≡◌, Bool, true, false, not, ◌||◌, Option, none, some, List, [], ◌∷◌, ◌++◌, String,
  if◌then◌else◌, ◌==◌, string_eq, wrap, Error, Result, ok, err, arith, All,
}
use kotakpasir.Base.Int.{ℤ, pos, int_eq}
use kotakpasir.Runtime.{ExecSpec, ExecResult, Status, Written}

pub record ExecClient : Type 1 where
  pub State : Type 0
  pub exec_create : String → ExecSpec → State → Result String × State
  pub exec_attach : String → State → Result (List Written × Option Error) × State
  pub exec_inspect : String → State → Result ℤ
  pub container_stop : String → ℕ → State → Result (Unit {0}) × State
  pub container_state : String → State → Result (String × ℤ)

-- What goes to the writers that the caller passed.
unfoldable pub passed_on : ExecSpec → List Written → List Written
passed_on spec [] = []
passed_on spec (w ∷ ws) =
    let rest = passed_on spec ws in
    if (if w.to_stderr then spec.stderr else spec.stdout) then w ∷ rest else rest

-- What goes into the buffer of one of the streams.
unfoldable pub buffered : Bool → List Written → List ℕ
buffered to_stderr [] = []
buffered to_stderr (w ∷ ws) =
    let rest = buffered to_stderr ws in
    elim w.to_stderr [
      | true ↦ if to_stderr then w.bytes ++ rest else rest
      | false ↦ if to_stderr then rest else w.bytes ++ rest
    ]

-- `defaultStopTimeout`, in seconds
abbrev pub default_stop_timeout : ℕ
default_stop_timeout = 5

module _ (client : ExecClient) where
  -- `(*Runtime).Exec`; `duration` is the time since its start.
  unfoldable pub exec :
      String → ExecSpec → ℤ → client.State → Result ExecResult × List Written × client.State
  exec id spec duration s =
      let (created, s') = client.exec_create id spec s in
      elim created [
        | err e ↦ (err (wrap "exec create: %w" [] e), [], s')
        | ok exec_id ↦
            let (attached, s'') = client.exec_attach exec_id s' in
            elim attached [
              | err e ↦ (err (wrap "exec attach: %w" [] e), [], s'')
              | ok (ws, ended) ↦ elim ended [
                | some e ↦ (err (wrap "exec read: %w" [] e), passed_on spec ws, s'')
                | none ↦ (
                  elim (client.exec_inspect exec_id s'') [
                    | err e ↦ err (wrap "exec inspect: %w" [] e)
                    | ok code ↦ ok (record {
                      exit_code = code;
                      stdout = if spec.stdout then [] else buffered false ws;
                      stderr = if spec.stderr then [] else buffered true ws;
                      duration = duration;
                    })
                  ],
                  passed_on spec ws,
                  s'',
                )
              ]
            ]
      ]

  -- `(*Runtime).Stop`
  unfoldable pub stop : String → client.State → Result (Unit {0}) × client.State
  stop id s = client.container_stop id default_stop_timeout s

  -- `(*Runtime).Status`
  unfoldable pub status : String → client.State → Result Status
  status id s = elim (client.container_state id s) [
    | err e ↦ err e
    | ok (state, code) ↦ ok (record {
      state = state;
      exit_code = if not (code == pos 0) || state == "exited" then some code else none;
    })
  ]

-- Nothing goes to a writer that was not passed.
pub passed_on_lem :
    (spec : ExecSpec) (ws : List Written)
    → All (λ w. (if w.to_stderr then spec.stderr else spec.stdout) ≡ true) (passed_on spec ws)
unfolding passed_on
passed_on_lem spec [] = tt
passed_on_lem spec (w ∷ ws) = ground (arith, passed_on_lem spec ws)

-- Of the two streams, `Exec` returns only those for which no writer was passed.
pub exec_returns :
    (client : ExecClient) (id : String) (spec : ExecSpec) (duration : ℤ) (s : client.State)
    (res : ExecResult)
    → (exec client id spec duration s).0 ≡ ok res
    → (spec.stdout ≡ true → res.stdout ≡ []) × (spec.stderr ≡ true → res.stderr ≡ [])
unfolding exec
exec_returns client id spec duration s res h = ground (arith, h)
