-- ===== src/Client/Streams.antt =====
-- `ExecStream` of the client library against the stream of the HTTP API.
use kotakpasir.Base.{
  ℕ, ◌≡◌, ◌≢◌, ◌⊎◌, refl, ap, ◌∙◌, Bool, true, false, Option, none, some, List, [], ◌∷◌, ◌++◌, map,
  String, if◌then◌else◌, string_eq, string_dec, nat_eq, Error, ok, arith, is_empty, All,
}
use kotakpasir.Base.Text.{Chars}
use kotakpasir.Runtime.{Runtime}
use kotakpasir.Sandbox.{Store, ExecResult}
use kotakpasir.Manager.{Manager}
use kotakpasir.Manager.Logs
use kotakpasir.Manager.Logs.{writes}
use kotakpasir.Sse.{Bytes, Chunk, send, exit_name, write_chunks}
use kotakpasir.Sse.Parse.{Exit, PayloadJson, Sinks, Returned, parse_sse}
use kotakpasir.Sse.RoundTrip.{IsClean, parse_sse-send}
use kotakpasir.Api.{Codec, Response, ExecRequest, milliseconds}
use kotakpasir.Api.Handlers.{exec_options, chunk_of, handle_exec_stream}
use kotakpasir.Api.Server.{Settings, Moment, route, to_exec_stream, handle}
use kotakpasir.Client.{Decoder, Answer, fine, sandbox_path}
use kotakpasir.Client.Methods.{exec_stream}
use kotakpasir.Client.Wire.{IsWire, Arrives, wired, answered, call_allowed}
use kotakpasir.Client.Sandboxes.{is_filled, dispatch_routed}

route_exec_stream :
    (b : Bool) (id : String)
    → id ≢ ""
    → route b "POST" (sandbox_path id ("exec" ∷ "stream" ∷ [])) ≡ some (to_exec_stream id)
unfolding string_eq string_dec
route_exec_stream b id h = ap (λ c. if c then none else some (to_exec_stream id)) (is_filled id h)

-- What `ExecStream` is told at the end of a command that ran.
abbrev pub exit_of : ExecResult → Exit
exit_of res = record { exit_code = res.exit_code; duration_ms = milliseconds res.duration }

++_nil : (xs : Bytes) → xs ≡ xs ++ []
++_nil [] = refl
++_nil (x ∷ xs) = ap (x ∷◌) (++_nil xs)

-- What the client makes of a stream's response.
abbrev received :
    {Body : Type 0}
    → Decoder Body
    → PayloadJson
    → Sinks
    → Option Error
    → Response Body
    → Answer (Returned × List Chunk)
received D j sinks ended resp = fine (parse_sse j sinks ended (D.bytes resp.body))

module _ (K : Codec) {R : Runtime} {S : Store} (chars : Chars) (D : Decoder K.Body)
    (wire : IsWire K D) (j : PayloadJson) (sinks : Sinks) (ended : Option Error) where
  read_stream :
      (id : String) (req : ExecRequest) (now : ℕ) (m : Manager R S) (res : ExecResult)
      → Arrives K D req
      → is_empty req.cmd ≡ false
      → (Logs.exec id (exec_options req true) now m).0 ≡ ok res
      → (answered K chars D
          (received D j sinks ended)
          (handle_exec_stream K id (D.exec_body req) now m)).0
        ≡ fine (
            parse_sse j sinks ended (
              write_chunks (map chunk_of (writes id (exec_options req true) m))
              ++ send exit_name (K.exit_json (exit_of res))))
  unfolding handle_exec_stream
  read_stream id req now m res law cmd done =
      let text =
        write_chunks (map chunk_of (writes id (exec_options req true) m))
        ++ send exit_name (K.exit_json (exit_of res)) in
      ground (arith, law, cmd, done, ap (parse_sse j sinks ended) (wire.bytes_law text))

  -- A command that runs in a sandbox, streamed: the client returns its exit code and its duration in
  -- milliseconds, and its writers get what the command wrote, chunk by chunk. The client has the
  -- server's token and writers that take every write; the request comes through the JSON libraries as it
  -- was, and so do the texts and bytes of responses; no chunk starts with a line feed or has a carriage
  -- return at the end of a line; and the payload of the exit event is read back.
  pub exec_stream_delivers :
      (s : Settings K.Body) (token : String) (at : Moment) (id : String) (req : ExecRequest)
      (m : Manager R S) (res : ExecResult)
      → (s.token ≡ "") ⊎ (s.token ≡ token)
      → id ≢ ""
      → Arrives K D req
      → is_empty req.cmd ≡ false
      → (Logs.exec id (exec_options req true) at.now m).0 ≡ ok res
      → sinks.stdout ≡ true
      → sinks.stderr ≡ true
      → ((ws : List Chunk) → sinks.failure ws ≡ none)
      → All (λ c. IsClean c.bytes) (map chunk_of (writes id (exec_options req true) m))
      → IsClean (K.exit_json (exit_of res))
      → j.exit_of (K.exit_json (exit_of res)) ≡ ok (exit_of res)
      → (exec_stream chars D token (wired K s at) j sinks ended id req m).0
        ≡ fine (
          record { result = some (exit_of res); error = none },
          map chunk_of (writes id (exec_options req true) m),
        )
  unfolding exec_stream handle
  exec_stream_delivers s token at id req m res same filled law cmd done out errs quiet clean clean'
        h =
      let chunks = map chunk_of (writes id (exec_options req true) m) in
      let payload = K.exit_json (exit_of res) in
      ap (λ r. r.0)
        (call_allowed K chars D s at token "POST" (sandbox_path id ("exec" ∷ "stream" ∷ [])) []
            (some (D.exec_body req)) (received D j sinks ended) m same
          ∙ ap (answered K chars D (received D j sinks ended))
              (dispatch_routed K s at _ m (to_exec_stream id) (λ b. route_exec_stream b id filled)))
      ∙ read_stream id req at.now m res law cmd done
      ∙ ap (λ text. fine (parse_sse j sinks ended (write_chunks chunks ++ text)))
          (++_nil (send exit_name payload))
      ∙ ap fine (
          parse_sse-send j sinks ended chunks payload [] (exit_of res) out errs quiet clean clean'
            h)
