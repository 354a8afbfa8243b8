-- ===== src/Cli/Execution.antt =====
-- `kp exec` against the HTTP API and the manager behind it.
pub mod Stopped
use kotakpasir.Base.{
  ◌≡◌, ◌≢◌, ◌⊎◌, inl, inr, refl, sym, ap, subst, ◌∙◌, Bool, true, false, none, some, List, [], ◌∷◌,
  map, String, if◌then◌else◌, string_eq, string_dec, nat_eq, Error, Result, ok, err, is_empty, All,
  arith, Result-cases,
}
use kotakpasir.Base.Int.{pos}
use kotakpasir.Base.Text.{Chars}
use kotakpasir.Runtime.{Runtime}
use kotakpasir.Sandbox.{Sandbox, Store, ExecResult}
use kotakpasir.Sandbox.Contract.{Contract}
use kotakpasir.Manager.{Manager}
use kotakpasir.Manager.Lifecycle
use kotakpasir.Manager.Logs
use kotakpasir.Manager.Logs.{writes}
use kotakpasir.Manager.Logs.Running.{IsRefused, exec-stop}
use kotakpasir.Sse.{Chunk}
use kotakpasir.Sse.Parse.{PayloadJson}
use kotakpasir.Sse.Ending.{parse_sse-IsTold}
use kotakpasir.Sse.RoundTrip.{IsClean}
use kotakpasir.Api.{Codec, Response, ExecResponse, milliseconds}
use kotakpasir.Api.Handlers.{exec_options, chunk_of, lookup_error, handle_exec, handle_stop}
use kotakpasir.Api.Server.{Settings, Moment, route, to_exec, to_stop, handle}
use kotakpasir.Client.{
  Decoder, Call, Failure, Answer, fine, failed, decoded, read_error_response, do_decode, do_discard,
  sandbox_path, call, call_of,
}
use kotakpasir.Client.Methods.{no_exec, exec, exec_stream, stop}
use kotakpasir.Client.Wire.{IsWire, Arrives, wired, answered, call_allowed}
use kotakpasir.Client.Sandboxes.{is_filled, looked_up, dispatch_routed}
use kotakpasir.Client.Streams.{exit_of, exec_stream_delivers}
use kotakpasir.Cli.{raw, failing, panicked, finish, print_err}
use kotakpasir.Cli.Commands.{Terminal, both_streams, exec_request, run_exec, run_stop}

route_exec :
    (b : Bool) (id : String)
    → id ≢ ""
    → route b "POST" (sandbox_path id ("exec" ∷ [])) ≡ some (to_exec id)
unfolding string_eq string_dec
route_exec b id h = ap (λ c. if c then none else some (to_exec id)) (is_filled id h)

module _ {ℓ} {St : Type ℓ} {Body : Type 0} (chars : Chars) (D : Decoder Body) (token : String)
    (net : Call Body → St → Result (Response Body) × St) (term : Terminal) (j : PayloadJson) where
  -- `kp exec` does not panic, whatever the server answers: where `ExecStream` returns no error, there is
  -- a result whose exit code can be read.
  pub run_exec_safe :
      (stream : Bool) (id : String) (cmd : List String) (s : St)
      → (run_exec chars D token net term j stream id cmd s).0.problem ≢ some panicked
  unfolding run_exec exec_stream call
  run_exec_safe true id cmd s h =
      let request = D.exec_body (exec_request cmd) in
      elim (Result-cases
        (net (call_of token "POST" (sandbox_path id ("exec" ∷ "stream" ∷ [])) [] (some request))
          s).0) [
            | inr (e, q) ↦ ground (arith, h, q)
            | inl (resp, q) ↦ ground (
              arith,
              h,
              q,
              parse_sse-IsTold j (both_streams term) term.body_end (D.bytes resp.body),
            )
          ]
  run_exec_safe false id cmd s h = ground (arith, h)

-- The response of the server to a buffered command.
abbrev pub response_of : ExecResult → ExecResponse
response_of res = record {
  exit_code = res.exit_code;
  stdout = res.stdout;
  stderr = res.stderr;
  duration_ms = milliseconds res.duration;
}

module _ (K : Codec) {R : Runtime} {S : Store} (chars : Chars) (D : Decoder K.Body)
    (wire : IsWire K D) (s : Settings K.Body) (token : String)
    (same : (s.token ≡ "") ⊎ (s.token ≡ token)) (term : Terminal) (j : PayloadJson) where
  read_output :
      (at : Moment) (id : String) (cmd : List String) (m : Manager R S) (res : ExecResult)
      → Arrives K D (exec_request cmd)
      → is_empty cmd ≡ false
      → (Logs.exec id (exec_options (exec_request cmd) false) at.now m).0 ≡ ok res
      → D.exec_of (K.exec_response (response_of res)) ≡ ok (response_of res)
      → (answered K chars D
          (decoded no_exec D.exec_of)
          (handle_exec K id (D.exec_body (exec_request cmd)) at.now m)).0
        ≡ fine (response_of res)
  unfolding handle_exec
  read_output at id cmd m res law some_cmd h back = ground (arith, law, some_cmd, h, back)

  -- `Exec` behind the HTTP API.
  exec_served :
      (at : Moment) (id : String) (cmd : List String) (m : Manager R S)
      → id ≢ ""
      → do_decode chars D token
          (wired K s at)
          "POST"
          (sandbox_path id ("exec" ∷ []))
          (some (D.exec_body (exec_request cmd)))
          no_exec
          D.exec_of
          m
        ≡ answered K chars D
            (decoded no_exec D.exec_of)
            (handle_exec K id (D.exec_body (exec_request cmd)) at.now m)
  unfolding do_decode handle
  exec_served at id cmd m h =
      call_allowed K chars D s at token "POST" (sandbox_path id ("exec" ∷ [])) []
        (some (D.exec_body (exec_request cmd))) (decoded no_exec D.exec_of) m same
      ∙ ap (answered K chars D (decoded no_exec D.exec_of))
          (dispatch_routed K s at _ m (to_exec id) (λ b. route_exec b id h))

  -- `kp exec` on a sandbox where the command runs: it prints what the command wrote to its standard
  -- output and to its standard error, and ends with the command's exit code. The client has the
  -- server's token, and the request and the response come through the JSON libraries as they were.
  pub run_exec_outcome :
      (at : Moment) (id : String) (cmd : List String) (m : Manager R S) (res : ExecResult)
      → id ≢ ""
      → Arrives K D (exec_request cmd)
      → is_empty cmd ≡ false
      → (Logs.exec id (exec_options (exec_request cmd) false) at.now m).0 ≡ ok res
      → D.exec_of (K.exec_response (response_of res)) ≡ ok (response_of res)
      → finish (run_exec chars D token (wired K s at) term j false id cmd m).0 ≡ record {
        output =
            raw (record { to_stderr = false; bytes = res.stdout })
            ∷ raw (record { to_stderr = true; bytes = res.stderr })
            ∷ [];
        status = res.exit_code;
      }
  unfolding run_exec exec finish
  run_exec_outcome at id cmd m res filled law some_cmd h back = ground (
    arith,
    ap (λ (r : Answer ExecResponse × Manager R S). r.0) (exec_served at id cmd m filled)
        ∙ read_output at id cmd m res law some_cmd h back,
  )

  -- `kp exec --stream` on a sandbox where the command runs: it prints what the command wrote, chunk by
  -- chunk and each on its stream, and ends with the command's exit code. The client has the server's
  -- token, the request comes through the JSON libraries as it was, the terminal takes every write, no chunk starts with a line feed or has a carriage return at
  -- the end of a line, and the payload of the exit event is read back.
  pub run_exec_stream_outcome :
      (at : Moment) (id : String) (cmd : List String) (m : Manager R S) (res : ExecResult)
      → id ≢ ""
      → Arrives K D (exec_request cmd)
      → is_empty cmd ≡ false
      → (Logs.exec id (exec_options (exec_request cmd) true) at.now m).0 ≡ ok res
      → ((ws : List Chunk) → term.write ws ≡ none)
      → All
          (λ c. IsClean c.bytes)
          (map chunk_of (writes id (exec_options (exec_request cmd) true) m))
      → IsClean (K.exit_json (exit_of res))
      → j.exit_of (K.exit_json (exit_of res)) ≡ ok (exit_of res)
      → finish (run_exec chars D token (wired K s at) term j true id cmd m).0 ≡ record {
        output = map raw (map chunk_of (writes id (exec_options (exec_request cmd) true) m));
        status = res.exit_code;
      }
  unfolding run_exec finish
  run_exec_stream_outcome at id cmd m res filled law some_cmd h takes clean clean' back = ground (
    arith,
    exec_stream_delivers K chars D wire j (both_streams term) term.body_end s token at id
        (exec_request cmd) m res same filled law some_cmd h refl refl takes clean clean' back,
  )
