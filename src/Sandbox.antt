-- ===== src/Sandbox.antt =====
-- internal/sandbox/sandbox.go and store.go: the sandbox record, its states, and the store contract.
-- Times are nanoseconds since 1970.
pub mod Contract
use kotakpasir.Base.{ℕ, Bool, Option, List, String, Result}
use kotakpasir.Base.Dict.{Dict}
use kotakpasir.Base.Int.{ℤ}

abbrev pub created : String
created = "created"

abbrev pub running : String
running = "running"

abbrev pub stopped : String
stopped = "stopped"

abbrev pub removed : String
removed = "removed"

abbrev pub error : String
error = "error"

-- `ErrNotFound`
abbrev pub not_found : String
not_found = "sandbox not found"

pub record Sandbox : Type 0 where
  pub id : String
  pub name : String
  pub image : String
  pub runtime_id : String
  pub state : String
  pub cpus : ℤ
  pub memory_mb : ℤ
  pub env : Dict String
  pub labels : Dict String
  pub created_at : ℕ
  pub expires_at : Option ℕ

pub record CreateOptions : Type 0 where
  pub name : String
  pub profile : String
  pub image : String
  pub cmd : List String
  pub env : Dict String
  pub cpus : ℤ
  pub memory_mb : ℤ
  pub ttl : ℤ
  pub labels : Dict String

-- `stdout` and `stderr` tell whether the caller passed a writer for the stream.
pub record ExecOptions : Type 0 where
  pub cmd : List String
  pub env : Dict String
  pub work_dir : String
  pub stdin : List ℕ
  pub stdout : Bool
  pub stderr : Bool

pub record ExecResult : Type 0 where
  pub exit_code : ℤ
  pub stdout : List ℕ
  pub stderr : List ℕ
  pub duration : ℤ

-- The interface `Store`: each method gives its result and the state of the database after it.
pub record Store : Type 1 where
  pub State : Type 0
  pub put : Sandbox → State → Result (Unit {0}) × State
  pub get : String → State → Result Sandbox × State
  pub list : State → Result (List Sandbox) × State
  pub delete : String → State → Result (Unit {0}) × State
  pub expired_before : ℕ → State → Result (List Sandbox) × State
  pub ping : Option (State → Result (Unit {0}))
