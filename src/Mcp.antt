-- ===== src/Mcp.antt =====
-- internal/mcp/server.go: the tools of the MCP server, over the manager.
-- The SDK, which decodes the input and reports an error, is not modelled: a tool is a function of its input.
-- The texts of errors and the count in the answer of `sandbox_list` are parameters.
pub mod Agreement
pub mod Entry
mod Tests
use kotakpasir.Base.{
  ℕ, Bool, true, false, List, [], map, String, ◌<>◌, if◌then◌else◌, Error, is_error, message,
  Result, ok, err, length, Option, none, some, ◌∷◌,
}
use kotakpasir.Base.Dict.{Dict}
use kotakpasir.Base.Int.{ℤ}
use kotakpasir.Runtime.{Runtime}
use kotakpasir.Sandbox.{Sandbox, Store, CreateOptions, ExecOptions, not_found}
use kotakpasir.Manager.{Manager}
use kotakpasir.Manager.Create.{create}
use kotakpasir.Manager.Lifecycle.{get, list, stop, delete}
use kotakpasir.Manager.Logs.{exec}
use kotakpasir.Api.{seconds, milliseconds}

pub record CreateInput : Type 0 where
  pub image : String
  pub profile : String
  pub name : String
  pub cmd : List String
  pub env : Dict String
  pub cpus : ℤ
  pub memory_mb : ℤ
  pub ttl_sec : ℤ

pub record SandboxOutput : Type 0 where
  pub id : String
  pub name : String
  pub image : String
  pub state : String

pub record ExecInput : Type 0 where
  pub id : String
  pub cmd : List String
  pub env : Dict String
  pub work_dir : String
  pub stdin : List ℕ

pub record ExecOutput : Type 0 where
  pub exit_code : ℤ
  pub stdout : List ℕ
  pub stderr : List ℕ
  pub duration_ms : ℤ

-- What a tool returns: the text for the model, if any, and the output.
pub record Reply {ℓ} (A : Type ℓ) : Type ℓ where
  pub text : Option (List ℕ)
  pub output : A

-- `toMCP`
abbrev pub to_mcp : Sandbox → SandboxOutput
to_mcp sb = record { id = sb.id; name = sb.name; image = sb.image; state = sb.state }

abbrev pub options_of : CreateInput → CreateOptions
options_of in' = record {
  name = in'.name;
  profile = in'.profile;
  image = in'.image;
  cmd = in'.cmd;
  env = in'.env;
  cpus = in'.cpus;
  memory_mb = in'.memory_mb;
  ttl = seconds in'.ttl_sec;
  labels = [];
}

abbrev pub exec_options : ExecInput → ExecOptions
exec_options in' = record {
  cmd = in'.cmd;
  env = in'.env;
  work_dir = in'.work_dir;
  stdin = in'.stdin;
  stdout = false;
  stderr = false;
}

-- A tool that uses the manager.
abbrev pub Tool {ℓ} : Runtime → Store → Type ℓ → Type ℓ
Tool R S A = Manager R S → Result (Reply A) × Manager R S

-- The bytes of a text.
pub record Texts : Type 0 where
  pub bytes : String → List ℕ
  pub count : ℕ → List ℕ

module _ (t : Texts) {R : Runtime} {S : Store} where
  -- The tool `sandbox_create`
  unfoldable pub sandbox_create : CreateInput → String → ℕ → Tool R S SandboxOutput
  sandbox_create in' id now m =
      let (r, m') = create (options_of in') id now m in
      (
        elim r [
          | err e ↦ err e
          | ok sb ↦
              ok
                (record { text = some (t.bytes ("created sandbox " <> sb.id)); output = to_mcp sb })
        ],
        m',
      )

  -- The tool `sandbox_list`
  unfoldable pub sandbox_list : Tool R S (List SandboxOutput)
  sandbox_list m =
      let (r, m') = list m in
      (
        elim r [
          | err e ↦ err e
          | ok sbs ↦ ok (record { text = some (t.count (length sbs)); output = map to_mcp sbs })
        ],
        m',
      )

  -- The tool `sandbox_get`
  unfoldable pub sandbox_get : String → Tool R S SandboxOutput
  sandbox_get id m =
      let (r, m') = get id m in
      (
        elim r [
          | err e ↦
              err (if is_error e not_found then message "sandbox %s not found" (id ∷ []) else e)
          | ok sb ↦ ok (record { text = none; output = to_mcp sb })
        ],
        m',
      )

  -- The tool `sandbox_exec`
  unfoldable pub sandbox_exec : ExecInput → ℕ → Tool R S ExecOutput
  sandbox_exec in' now m =
      let (r, m') = exec in'.id (exec_options in') now m in
      (
        elim r [
          | err e ↦ err e
          | ok res ↦ ok (record {
            text = some res.stdout;
            output = record {
              exit_code = res.exit_code;
              stdout = res.stdout;
              stderr = res.stderr;
              duration_ms = milliseconds res.duration;
            };
          })
        ],
        m',
      )

  -- The tool `sandbox_stop`, whose output is `OK: true`.
  unfoldable pub sandbox_stop : String → Tool R S Bool
  sandbox_stop id m =
      let (r, m') = stop id m in
      (
        elim r [
          | err e ↦ err e
          | ok _ ↦ ok (record { text = some (t.bytes ("stopped " <> id)); output = true })
        ],
        m',
      )

  -- The tool `sandbox_delete`, whose output is `OK: true`.
  unfoldable pub sandbox_delete : String → Tool R S Bool
  sandbox_delete id m =
      let (r, m') = delete id m in
      (
        elim r [
          | err e ↦ err e
          | ok _ ↦ ok (record { text = some (t.bytes ("deleted " <> id)); output = true })
        ],
        m',
      )
