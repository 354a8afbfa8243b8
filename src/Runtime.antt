-- ===== src/Runtime.antt =====
-- internal/runtime/runtime.go: the contract between the manager and a container backend.
-- A backend is a parameter: its state and, for each method, the result and the state after it.
-- Cancellation of a context is one of the errors that a method may return.
pub mod Counting
pub mod Suite
use kotakpasir.Base.{ℕ, Bool, Option, List, String, Eq, string_eq, string_dec, Result}
use kotakpasir.Base.Dict.{Dict}
use kotakpasir.Base.Int.{ℤ, ℤ_discrete}
use mathlib.Core.Bool.{Bool-discrete}

-- `ErrNoProxy`
abbrev pub no_proxy : String
no_proxy = "sandbox has no egress proxy"

pub record Egress : Type 0 where
  pub mode : String
  pub hosts : List String

pub record Spec : Type 0 where
  pub name : String
  pub image : String
  pub cmd : List String
  pub env : Dict String
  pub cpus : ℤ
  pub memory_mb : ℤ
  pub pids_limit : ℤ
  pub user : String
  pub read_only : Bool
  pub network_mode : String
  pub runtime_name : String
  pub egress : Egress
  pub labels : Dict String
  pub ttl : ℤ

pub record Handle : Type 0 where
  pub id : String
  pub name : String

-- `stdout` and `stderr` tell whether the caller passed a writer for the stream.
pub record ExecSpec : Type 0 where
  pub cmd : List String
  pub env : Dict String
  pub work_dir : String
  pub stdin : Option (List ℕ)
  pub stdout : Bool
  pub stderr : Bool

pub record ExecResult : Type 0 where
  pub exit_code : ℤ
  pub stdout : List ℕ
  pub stderr : List ℕ
  pub duration : ℤ

pub record Status : Type 0 where
  pub state : String
  pub exit_code : Option ℤ

-- What a call of a writer passes on, in the order of the calls; `to_stderr` tells the stream.
pub record Written : Type 0 where
  pub to_stderr : Bool
  pub bytes : List ℕ
  pub at : ℕ

-- The methods that the manager and the pools call, and the optional capabilities that it asks for.
pub record Runtime : Type 1 where
  pub State : Type 0
  pub create : Spec → State → Result Handle × State
  pub exec : String → ExecSpec → State → Result ExecResult × List Written × State
  pub stop : String → State → Result (Unit {0}) × State
  pub remove : String → State → Result (Unit {0}) × State
  pub ping : Option (State → Result (Unit {0}))
  pub clean_pool_orphans : Option (State → Result (Unit {0}) × State)
  pub ensure_image : Option (String → State → Result Bool × State)
  pub proxy_addr : Option (String → State → Result String)

unfoldable pub Spec-discrete : Discrete Spec
unfolding string_dec ℤ_discrete
Spec-discrete = hlevel (string_dec, ℤ_discrete)

-- `reflect.DeepEqual` on specs; two maps count as equal when they list the same entries in the
-- same order.
instance unfoldable pub spec_eq : Eq Spec
unfolding Spec-discrete
spec_eq = record { dec = Spec-discrete }
