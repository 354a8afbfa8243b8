-- ===== src/Cli/Commands.antt =====
-- cmd/kp/commands.go, and `logs` and `completion` of cmd/kp/extra.go: the subcommands, each on the methods of
-- the client library. `print_json`, `flush` and `write` tell whether the output takes what is printed.
use kotakpasir.Base.{
  ℕ, zero, suc, Bool, true, false, ◌&&◌, Option, none, some, List, [], ◌∷◌, map, String,
  if◌then◌else◌, ◌==◌, string_eq, is_empty, contains, ltb, Error, Result,
}
use kotakpasir.Base.Int.{ℤ, pos}
use kotakpasir.Base.Text.{Chars}
use kotakpasir.Sandbox.{running}
use kotakpasir.Api.{View, ExecRequest, Response}
use kotakpasir.Sse.{Chunk}
use kotakpasir.Sse.Parse.{PayloadJson, Sinks}
use kotakpasir.Client.{Answer, fine, failed, Call, Decoder, CreateOptions}
use kotakpasir.Client.Methods.{
  create, get, list, stop, delete, exec, exec_stream, logs, logs_stream,
}
use kotakpasir.Client.Wait.{reached, wait_for}
use kotakpasir.Cli.{
  Problem, told, failing, waiting, broken_stream, panicked, line, row, json, raw, script, Ran, done,
  give_up,
}

-- `len(id)` and `id[:n]`, on ids of ASCII characters.
text_length : String → ℕ
text_length String.[] = 0
text_length (String.◌∷◌ c s) = suc (text_length s)

take_text : ℕ → String → String
take_text zero s = String.[]
take_text (suc n) String.[] = String.[]
take_text (suc n) (String.◌∷◌ c s) = String.◌∷◌ c (take_text n s)

-- `short`
unfoldable pub short : String → String
unfolding text_length take_text
short id = if ltb 12 (text_length id) then take_text 12 id else id

-- The flags of `run`.
pub record RunFlags : Type 0 where
  pub image : String
  pub profile : String
  pub name : String
  pub cpus : ℤ
  pub memory_mb : ℤ
  pub ttl : ℤ
  pub wait : Bool
  pub wait_timeout : ℤ

abbrev pub options_of : RunFlags → CreateOptions
options_of f = record {
  name = f.name;
  profile = f.profile;
  image = f.image;
  cmd = [];
  env = [];
  cpus = f.cpus;
  memory_mb = f.memory_mb;
  ttl = f.ttl;
}

-- The process's surroundings: the errors of the tab writer and of the JSON encoder on the output; the
-- error of a write to a stream, given all of them so far; the end of a response's body; the ticks of a
-- wait that come within a time; and Cobra's generators.
pub record Terminal : Type 0 where
  pub flush : List (List String) → Option Error
  pub encode : View → Option Error
  pub write : List Chunk → Option Error
  pub body_end : Option Error
  pub ticks : ℤ → ℕ
  pub generate : String → Option Error

abbrev pub both_streams : Terminal → Sinks
both_streams term = record { stdout = true; stderr = true; failure = term.write }

-- An error of the output.
abbrev pub output_error : Option Error → Option Problem
output_error none = none
output_error (some e) = some (broken_stream e)

-- The table of `ls`.
abbrev pub listing : List View → List (List String)
listing list =
    ("ID" ∷ "IMAGE" ∷ "STATE" ∷ "NAME" ∷ [])
    ∷ map (λ (sb : View). short sb.id ∷ sb.image ∷ sb.state ∷ sb.name ∷ []) list

-- `completion`
unfoldable pub run_completion : Terminal → String → Ran
run_completion term shell =
    if contains ("bash" ∷ "zsh" ∷ "fish" ∷ "powershell" ∷ []) shell
    then record {
      output = script shell ∷ [];
      problem = output_error (term.generate shell);
      exit_code = pos 0;
    }
    else give_up (told "unsupported shell %q")

-- `ExecOptions{Cmd: cmdArgs}`
abbrev pub exec_request : List String → ExecRequest
exec_request cmd = record { cmd = cmd; env = []; work_dir = ""; stdin = [] }

module _ {ℓ} {St : Type ℓ} {Body : Type 0} (chars : Chars) (D : Decoder Body) (token : String)
    (net : Call Body → St → Result (Response Body) × St) (term : Terminal) where
  -- A call whose error ends the subcommand.
  abbrev finally {κ} : {A : Type κ} → (A → Ran) → Answer A × St → Ran × St
  finally f r = (elim r.0 [ fine a ↦ f a | failed e ↦ give_up (failing e) ], r.1)

  -- `ls`
  unfoldable pub run_ls : St → Ran × St
  run_ls s =
      finally
        (λ sbs. if is_empty sbs then done (line "no sandboxes" ∷ []) else record {
          output = map row (listing sbs);
          problem = output_error (term.flush (listing sbs));
          exit_code = pos 0;
        })
        (list chars D token net s)

  -- The wait of `run`.
  unfoldable pub await_running : RunFlags → String → St → Ran × St
  await_running f id s =
      let (w, s') = wait_for (get chars D token net id) running (term.ticks f.wait_timeout) s in
      (elim w [ reached sb ↦ done (line sb.id ∷ []) | other ↦ give_up (waiting other) ], s')

  -- `run`
  unfoldable pub run_run : RunFlags → St → Ran × St
  unfolding await_running
  run_run f s =
      if f.image == "" && f.profile == ""
      then (give_up (told "either --image or --profile is required"), s)
      else (let (r, s') = create chars D token net (options_of f) s in
          elim r [
            | failed e ↦ (give_up (failing e), s')
            | fine sb ↦ if f.wait then await_running f sb.id s' else (done (line sb.id ∷ []), s')
          ])

  -- `exec` with `--stream`; a result that is not there would be a nil pointer.
  unfoldable pub run_exec_stream : PayloadJson → String → List String → St → Ran × St
  run_exec_stream j id cmd s =
      finally
        (λ (r, chunks). record {
          output = map raw chunks;
          problem = elim r.error [
            | some e ↦ some (broken_stream e)
            | none ↦ elim r.result [ some x ↦ none | none ↦ some panicked ]
          ];
          exit_code = elim r.error [
            | some e ↦ pos 0
            | none ↦ elim r.result [ some x ↦ x.exit_code | none ↦ pos 0 ]
          ];
        })
        (exec_stream chars D token net j (both_streams term) term.body_end id (exec_request cmd) s)

  -- `exec`
  unfoldable pub run_exec : PayloadJson → Bool → String → List String → St → Ran × St
  unfolding run_exec_stream
  run_exec j stream id cmd s =
      if stream
      then run_exec_stream j id cmd s
      else finally
          (λ res. record {
            output =
                raw (record { to_stderr = false; bytes = res.stdout })
                ∷ raw (record { to_stderr = true; bytes = res.stderr })
                ∷ [];
            problem = none;
            exit_code = res.exit_code;
          })
          (exec chars D token net id (exec_request cmd) s)

  -- `stop`
  unfoldable pub run_stop : String → St → Ran × St
  run_stop id s = finally (λ _. done []) (stop chars D token net id s)

  -- `rm`
  unfoldable pub run_rm : String → St → Ran × St
  run_rm id s = finally (λ _. done []) (delete chars D token net id s)

  -- `inspect`
  unfoldable pub run_inspect : String → St → Ran × St
  run_inspect id s =
      finally
        (λ sb. record {
          output = json sb ∷ [];
          problem = output_error (term.encode sb);
          exit_code = pos 0;
        })
        (get chars D token net id s)

  -- `logs`
  unfoldable pub run_logs : PayloadJson → Bool → ℤ → String → St → Ran × St
  run_logs j follow tail id s =
      if follow
      then finally
          (λ (e, chunks). record {
            output = map raw chunks;
            problem = output_error e;
            exit_code = pos 0;
          })
          (logs_stream chars D token net j (both_streams term) term.body_end id tail s)
      else finally (λ text. done (raw (record { to_stderr = false; bytes = text }) ∷ []))
          (logs chars D token net id tail s)
