-- ===== src/Api.antt =====
-- internal/api/types.go and the data that internal/api/handlers.go works on.
-- Bodies, their JSON encoding and the parsing of queries are parameters: the record `Codec`.
pub mod Handlers
pub mod Server
pub mod Access
pub mod Creation
pub mod Deadlines
pub mod Upkeep
pub mod Tests
use kotakpasir.Base.{
  ℕ, ◌*◌, ◌-◌, ◌^◌, ◌%◌, ◌/◌, ◌+◌, suc, Bool, true, false, List, [], ◌∷◌, String, if◌then◌else◌,
  ltb, ◌==◌, nat_eq, Error, Result,
}
use kotakpasir.Base.Dict.{Dict}
use kotakpasir.Base.Int.{ℤ, pos, negsuc}
use kotakpasir.Base.Words.{signed}
use kotakpasir.Sandbox.{Sandbox}
use kotakpasir.Manager.Health.{HealthReport}
use kotakpasir.Sse.{Bytes}
use kotakpasir.Sse.Parse.{Exit}

pub record CreateRequest : Type 0 where
  pub name : String
  pub profile : String
  pub image : String
  pub cmd : List String
  pub env : Dict String
  pub cpus : ℤ
  pub memory_mb : ℤ
  pub ttl_sec : ℤ

-- The type `Sandbox` of the API.
pub record View : Type 0 where
  pub id : String
  pub name : String
  pub image : String
  pub state : String

pub record ExecRequest : Type 0 where
  pub cmd : List String
  pub env : Dict String
  pub work_dir : String
  pub stdin : List ℕ

pub record ExecResponse : Type 0 where
  pub exit_code : ℤ
  pub stdout : List ℕ
  pub stderr : List ℕ
  pub duration_ms : ℤ

pub record Response (Body : Type 0) : Type 0 where
  pub status : ℕ
  pub body : Body

-- The encoders of bodies (`ErrorResponse` and `ProxyResponse` are given by their one field), the
-- decoders of requests, the texts of errors, `%q`, the parsing of query values, and Fiber's answer
-- to a request without a route.
pub record Codec : Type 1 where
  pub Body : Type 0
  pub empty : Body
  pub plain : Bytes → Body
  pub error : String → Body
  pub view : View → Body
  pub views : List View → Body
  pub report : HealthReport → Body
  pub exec_response : ExecResponse → Body
  pub proxy : String → Body
  pub create_of : Body → Result CreateRequest
  pub exec_of : Body → Result ExecRequest
  pub exit_json : Exit → Bytes
  pub quoted : String → Bytes
  pub text : Error → String
  pub equal_fold : String → String → Bool
  pub atoi : String → Result ℤ
  pub no_route : Response Body

-- `toAPI`
abbrev pub to_api : Sandbox → View
to_api sb = record { id = sb.id; name = sb.name; image = sb.image; state = sb.state }

-- `time.Duration(sec) * time.Second`, which wraps around.
unfoldable pub seconds : ℤ → ℤ
seconds (pos n) = signed ((n * 1000000000) % 2 ^ 64)
seconds (negsuc n) = signed ((2 ^ 64 - (suc n * 1000000000) % 2 ^ 64) % 2 ^ 64)

-- `d.Milliseconds()`: the quotient, cut towards 0.
unfoldable pub milliseconds : ℤ → ℤ
milliseconds (pos n) = pos (n / 1000000)
milliseconds (negsuc n) = if suc n / 1000000 == 0 then pos 0 else negsuc (suc n / 1000000 - 1)
