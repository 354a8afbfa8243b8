-- ===== src/Cli.antt =====
-- cmd/kp/main.go: the command-line client. Cobra, which reads the command line, calls the function of a
-- subcommand and hands back its error, is not modelled: a command stands for what Cobra reads.
pub mod Commands
pub mod Watch
pub mod Differences
pub mod Changes
pub mod Execution
mod Tests
use kotakpasir.Base.{
  ℕ, Bool, true, false, Option, none, some, List, [], ◌∷◌, ◌++◌, String, if◌then◌else◌, ◌==◌,
  string_eq, Error,
}
use kotakpasir.Base.Int.{ℤ, pos}
use kotakpasir.Api.{View}
use kotakpasir.Sse.{Chunk}
use kotakpasir.Proxy.{getenv}
use kotakpasir.Client.{Kind, not_found, unauthorized, policy_denied, Failure, broken, refused}
use kotakpasir.Client.Wait.{Waited, absent, lost}

-- What a subcommand fails with: a message of its own, an error of the client library, the end of a
-- wait, an error of a stream or of a writer, or a panic.
pub data Problem : Type 0 where
  told : String → Problem
  failing : Failure → Problem
  waiting : Waited → Problem
  broken_stream : Error → Problem
  panicked : Problem

-- What is printed, in order: a line, a row that the tab writer aligns, a sandbox as JSON, bytes to one
-- of the two streams, a script of Cobra's, and the message of `printErr` with its hint.
pub data Printed : Type 0 where
  line : String → Printed
  row : List String → Printed
  json : View → Printed
  raw : Chunk → Printed
  script : String → Printed
  complaint : Problem → Option String → Printed

-- What `RunE` leaves: the output, the error, and the variable `exitCode`.
pub record Ran : Type 0 where
  pub output : List Printed
  pub problem : Option Problem
  pub exit_code : ℤ

abbrev pub done : List Printed → Ran
done out = record { output = out; problem = none; exit_code = pos 0 }

abbrev pub give_up : Problem → Ran
give_up p = record { output = []; problem = some p; exit_code = pos 0 }

-- `envOr`
unfoldable pub env_or : String → String → List String → String
env_or key def env = if getenv key env == "" then def else getenv key env

-- The variables `flagAddr` and `flagToken`; a flag that is not given has its default.
pub record Flags : Type 0 where
  pub addr : String
  pub token : String

abbrev given_or : Option String → String → String
given_or (some v) def = v
given_or none def = def

unfoldable pub flags_of : Option String → Option String → List String → Flags
flags_of addr token env = record {
  addr = given_or addr (env_or "KPD_ADDR" "http://127.0.0.1:8080" env);
  token = given_or token (getenv "KPD_TOKEN" env);
}

-- The sentinel that `errors.Is` finds in the error, if there is one.
unfoldable pub kind_of : Problem → Option Kind
kind_of (failing (refused status text kind)) = kind
kind_of (waiting (absent (refused status text kind))) = kind
kind_of (waiting (lost (refused status text kind))) = kind
kind_of _ = none

-- The second line of `printErr`.
abbrev pub hint : Option Kind → Option String
hint (some unauthorized) = some "set KPD_TOKEN or pass --token"
hint (some policy_denied) = some "check kotakpasir.yaml allowlist or use a defined profile"
hint (some not_found) = some "run `kp ls` to see available sandboxes"
hint _ = none

-- `printErr`
unfoldable pub print_err : Problem → Printed
unfolding kind_of
print_err p = complaint p (hint (kind_of p))

-- How the process ends: what it has printed and its exit status. A panic ends it with status 2.
pub record Ended : Type 0 where
  pub output : List Printed
  pub status : ℤ

-- `main`, behind the call of the subcommand.
unfoldable pub finish : Ran → Ended
finish r = elim r.problem [
  | none ↦ record { output = r.output; status = r.exit_code }
  | some panicked ↦ record { output = r.output; status = pos 2 }
  | some p ↦ record { output = r.output ++ (print_err p ∷ []); status = pos 1 }
]
