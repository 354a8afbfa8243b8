-- ===== src/Client.antt =====
-- pkg/kotakpasir/client.go and types.go: the client's requests, responses and errors.
-- The network is a parameter: a function from a request to the response, or an error. So are the
-- encoding and decoding of JSON and the text of a body.
pub mod Methods
pub mod Wire
pub mod Sandboxes
pub mod Journeys
pub mod Streams
pub mod Wait
pub mod Deadlines
pub mod Tests
use kotakpasir.Base.{
  ℕ, ◌/◌, ◌*◌, suc, Bool, true, false, ◌&&◌, ◌||◌, Option, none, some, List, [], ◌∷◌, String, ◌<>◌,
  if◌then◌else◌, ◌==◌, leb, string_eq, nat_eq, sentinel, message, wrap, Error, Result, ok, err,
}
use kotakpasir.Base.Dict.{Dict}
use kotakpasir.Base.Int.{ℤ, pos, negsuc, is_pos}
use kotakpasir.Base.Text.{Chars, to_lower, contains_text}
use kotakpasir.Docker.{times}
use kotakpasir.Api.{View, CreateRequest, ExecRequest, ExecResponse, Response}
use kotakpasir.Sse.{Bytes, Chunk}
use kotakpasir.Sse.Parse.{PayloadJson, Sinks, Returned, parse_sse}

-- The sentinel errors of types.go.
pub data Kind : Type 0 where
  not_found : Kind
  unauthorized : Kind
  policy_denied : Kind
  bad_request : Kind

-- What a method fails with: an error below the HTTP layer, or `*Error` with its status, its message
-- and its kind, if it has one.
pub data Failure : Type 0 where
  broken : Error → Failure
  refused : ℕ → String → Option Kind → Failure

pub data Answer {ℓ} (A : Type ℓ) : Type ℓ where
  fine : A → Answer A
  failed : Failure → Answer A

-- A request, with the path's parts and the header Authorization.
pub record Call (Body : Type 0) : Type 0 where
  pub method : String
  pub path : List String
  pub authorization : String
  pub query : Dict String
  pub body : Option Body

-- What the client uses of the JSON library and of bodies; `status_text` is `http.StatusText`, and
-- `error_of` is the field `error` of a body, empty where there is none. A decoder gives the zero value
-- for an empty body.
pub record Decoder (Body : Type 0) : Type 0 where
  pub create_body : CreateRequest → Body
  pub exec_body : ExecRequest → Body
  pub view_of : Body → Result View
  pub views_of : Body → Result (List View)
  pub exec_of : Body → Result ExecResponse
  pub error_of : Body → String
  pub trimmed : Body → String
  pub bytes : Body → Bytes
  pub status_text : ℕ → String
  pub itoa : ℤ → String

-- `CreateOptions` of the client.
pub record CreateOptions : Type 0 where
  pub name : String
  pub profile : String
  pub image : String
  pub cmd : List String
  pub env : Dict String
  pub cpus : ℤ
  pub memory_mb : ℤ
  pub ttl : ℤ

-- `int64(ttl.Seconds())`, sent only for a positive one.
unfoldable pub ttl_seconds : ℤ → ℤ
ttl_seconds (pos n) = pos (n / 1000000000)
ttl_seconds (negsuc n) = pos 0

unfoldable pub request_of : CreateOptions → CreateRequest
request_of opts = record {
  name = opts.name;
  profile = opts.profile;
  image = opts.image;
  cmd = opts.cmd;
  env = opts.env;
  cpus = opts.cpus;
  memory_mb = opts.memory_mb;
  ttl_sec = ttl_seconds opts.ttl;
}

module _ (chars : Chars) where
  -- `classifyError`
  unfoldable pub classify_error : ℕ → String → Option Kind
  classify_error status told =
      if status == 404
      then some not_found
      else if status == 401 || status == 403
      then some unauthorized
      else if status == 400
      then (let told' = to_lower chars told in
          if contains_text told' "allowlist"
            || contains_text told' "policy"
            || contains_text told' "profile "
          then some policy_denied
          else some bad_request)
      else none

  module _ {Body : Type 0} (D : Decoder Body) where
    -- `readErrorResponse`
    unfoldable pub read_error_response : Response Body → Failure
    read_error_response r =
        let told = D.error_of r.body in
        let told' = if told == "" then D.trimmed r.body else told in
        let told'' = if told' == "" then D.status_text r.status else told' in
        refused r.status told'' (classify_error r.status told'')

abbrev pub no_view : View
no_view = record { id = ""; name = ""; image = ""; state = "" }

abbrev pub bearer : String → String
bearer token = if token == "" then "" else "Bearer " <> token

-- The request of a method.
abbrev pub call_of :
    {Body : Type 0} → String → String → List String → Dict String → Option Body → Call Body
call_of token method path query body = record {
  method = method;
  path = path;
  authorization = bearer token;
  query = query;
  body = body;
}

-- The path of a sandbox.
abbrev pub sandbox_path : String → List String → List String
sandbox_path id more = "v1" ∷ "sandboxes" ∷ id ∷ more

-- What `do` makes of a response below 400, for a caller that wants the body.
abbrev pub decoded {κ} :
    {Body : Type 0} {A : Type κ} → A → (Body → Result A) → Response Body → Answer A
decoded zero_value decode resp =
    if resp.status == 204 then fine zero_value else (elim (decode resp.body) [
      | ok a ↦ fine a
      | err e ↦ failed (broken (wrap "decode response: %w" [] e))
    ])

module _ {ℓ} {St : Type ℓ} {Body : Type 0} (chars : Chars) (D : Decoder Body) (token : String)
    (net : Call Body → St → Result (Response Body) × St) where
  -- A request and the test of its status; `out` takes what is below 400.
  unfoldable pub call {κ} :
      {A : Type κ}
      → String
      → List String
      → Dict String
      → Option Body
      → (Response Body → Answer A)
      → St
      → Answer A × St
  call method path query body out s =
      let (r, s') = net (call_of token method path query body) s in
      (
        elim r [
          | err e ↦ failed (broken e)
          | ok resp ↦
              if leb 400 resp.status then failed (read_error_response chars D resp) else out resp
        ],
        s',
      )

  -- `do`, for a caller that wants the body.
  unfoldable pub do_decode {κ} :
      {A : Type κ} → String → List String → Option Body → A → (Body → Result A) → St → Answer A × St
  do_decode method path body zero_value decode =
      call method path [] body (decoded zero_value decode)

  -- `do` with `out` nil.
  unfoldable pub do_discard : String → List String → Option Body → St → Answer (Unit {0}) × St
  do_discard method path body = call method path [] body (λ resp. fine tt)
