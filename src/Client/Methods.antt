-- ===== src/Client/Methods.antt =====
-- pkg/kotakpasir/client.go, exec_stream.go and logs.go: the methods of the client.
use kotakpasir.Base.{
  ℕ, Bool, false, Option, none, some, List, [], ◌∷◌, String, if◌then◌else◌, ◌==◌, string_eq, nat_eq,
  sentinel, message, Error, Result, ok, err,
}
use kotakpasir.Base.Dict.{Dict}
use kotakpasir.Base.Int.{ℤ, pos, is_pos}
use kotakpasir.Base.Text.{Chars}
use kotakpasir.Docker.{times}
use kotakpasir.Api.{View, ExecRequest, ExecResponse, Response}
use kotakpasir.Sse.{Bytes, Chunk}
use kotakpasir.Sse.Parse.{PayloadJson, Sinks, Returned, parse_sse}
use kotakpasir.Client.{
  broken, Answer, fine, failed, Call, Decoder, CreateOptions, request_of, no_view, sandbox_path,
  call, do_decode, do_discard,
}

pub record ExecResult : Type 0 where
  pub exit_code : ℤ
  pub stdout : List ℕ
  pub stderr : List ℕ
  pub duration : ℤ

abbrev pub no_exec : ExecResponse
no_exec = record { exit_code = pos 0; stdout = []; stderr = []; duration_ms = pos 0 }

-- `err == io.ErrUnexpectedEOF`
abbrev pub is_unexpected_eof : Option Error → Bool
is_unexpected_eof (some (sentinel s)) = s == "unexpected EOF"
is_unexpected_eof _ = false

-- The query of `Logs` and `LogsStream`: their pairs, without those that `follow` puts before them.
abbrev pub tail_query : (ℤ → String) → ℤ → Dict String
tail_query itoa n = if is_pos n then ("tail", itoa n) ∷ [] else []

module _ {ℓ} {St : Type ℓ} {Body : Type 0} (chars : Chars) (D : Decoder Body) (token : String)
    (net : Call Body → St → Result (Response Body) × St) where
  -- `Health`, which takes no token and no status but 200.
  unfoldable pub health : St → Answer (Unit {0}) × St
  health s =
      let (r, s') =
        net
          (record {
            method = "GET";
            path = "healthz" ∷ [];
            authorization = "";
            query = [];
            body = none;
          })
          s in
      (
        elim r [
          | err e ↦ failed (broken e)
          | ok resp ↦
              if resp.status == 200
              then fine tt
              else failed (broken (message "healthz: status %d" []))
        ],
        s',
      )

  -- `Create`
  unfoldable pub create : CreateOptions → St → Answer View × St
  create opts =
      do_decode chars D token net "POST" ("v1" ∷ "sandboxes" ∷ [])
        (some (D.create_body (request_of opts))) no_view D.view_of

  -- `Get`
  unfoldable pub get : String → St → Answer View × St
  get id = do_decode chars D token net "GET" (sandbox_path id []) none no_view D.view_of

  -- `List`
  unfoldable pub list : St → Answer (List View) × St
  list = do_decode chars D token net "GET" ("v1" ∷ "sandboxes" ∷ []) none [] D.views_of

  -- `Stop`
  unfoldable pub stop : String → St → Answer (Unit {0}) × St
  stop id = do_discard chars D token net "POST" (sandbox_path id ("stop" ∷ [])) none

  -- `Delete`
  unfoldable pub delete : String → St → Answer (Unit {0}) × St
  delete id = do_discard chars D token net "DELETE" (sandbox_path id []) none

  -- `Exec`
  unfoldable pub exec : String → ExecRequest → St → Answer ExecResult × St
  exec id opts s =
      let (r, s') =
        do_decode chars D token net "POST" (sandbox_path id ("exec" ∷ [])) (some (D.exec_body opts))
          no_exec D.exec_of s in
      (
        elim r [
          | fine raw ↦ fine (record {
            exit_code = raw.exit_code;
            stdout = raw.stdout;
            stderr = raw.stderr;
            duration = times raw.duration_ms 1000000;
          })
          | failed e ↦ failed e
        ],
        s',
      )

  -- `ExecStream`: what it returns, and what it has written.
  unfoldable pub exec_stream :
      PayloadJson
      → Sinks
      → Option Error
      → String
      → ExecRequest
      → St
      → Answer (Returned × List Chunk) × St
  exec_stream j sinks ended id opts =
      call chars D token net "POST" (sandbox_path id ("exec" ∷ "stream" ∷ [])) []
        (some (D.exec_body opts)) (λ resp. fine (parse_sse j sinks ended (D.bytes resp.body)))

  -- `Logs`
  unfoldable pub logs : String → ℤ → St → Answer Bytes × St
  logs id tail =
      call chars D token net "GET" (sandbox_path id ("logs" ∷ [])) (tail_query D.itoa tail) none
        (λ resp. fine (D.bytes resp.body))

  -- `LogsStream`: its error, and what it has written.
  unfoldable pub logs_stream :
      PayloadJson → Sinks → Option Error → String → ℤ → St → Answer (Option Error × List Chunk) × St
  logs_stream j sinks ended id tail =
      call chars D token net "GET" (sandbox_path id ("logs" ∷ []))
        (("follow", "true") ∷ tail_query D.itoa tail) none
        (λ resp.
          let (r, written) = parse_sse j sinks ended (D.bytes resp.body) in
          fine (if is_unexpected_eof r.error then none else r.error, written))
