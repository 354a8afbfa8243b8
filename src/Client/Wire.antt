-- ===== src/Client/Wire.antt =====
-- The client library in front of the HTTP API: what one sends, the other reads.
use kotakpasir.Base.{
  ◌≡◌, ◌⊎◌, refl, ap, Option, none, some, List, String, if◌then◌else◌, string_eq, nat_eq, Result,
  ok, err, arith, leb,
}
use kotakpasir.Base.Dict.{Dict, lookup}
use kotakpasir.Base.Text.{Chars}
use kotakpasir.Runtime.{Runtime}
use kotakpasir.Sandbox.{Store}
use kotakpasir.Manager.{Manager}
use kotakpasir.Sse.{Bytes}
use kotakpasir.Api.{Codec, Response, View, CreateRequest, ExecRequest}
use kotakpasir.Api.Server.{Settings, Moment, Request, dispatch, serve}
use kotakpasir.Api.Access.{MayPass, serve_allowed}
use kotakpasir.Client.{
  Decoder, Call, call_of, Answer, failed, broken, bearer, call, read_error_response,
}

-- What the two JSON libraries promise each other on a response: the texts in it come through as they
-- were, and a plain body is its bytes.
pub record IsWire (K : Codec) (D : Decoder K.Body) : Type 0 where
  pub view_law : (v : View) → D.view_of (K.view v) ≡ ok v
  pub error_law : (told : String) → D.error_of (K.error told) ≡ told
  pub bytes_law : (text : Bytes) → D.bytes (K.plain text) ≡ text

-- The body of one request comes through the two JSON libraries as it was.
abbrev pub Arrives : (K : Codec) → Decoder K.Body → ExecRequest → Type 0
Arrives K D req = K.exec_of (D.exec_body req) ≡ ok req

abbrev pub CreateArrives : (K : Codec) → Decoder K.Body → CreateRequest → Type 0
CreateArrives K D req = K.create_of (D.create_body req) ≡ ok req

-- A value of the query, empty where there is none.
abbrev pub query_value : String → Dict String → String
query_value k query = elim (lookup k query) [ some v ↦ v | none ↦ "" ]

-- The request as the server reads it.
abbrev pub arrived : (K : Codec) → Call K.Body → Request K.Body
arrived K c = record {
  method = c.method;
  path = c.path;
  authorization = c.authorization;
  query = record { follow = query_value "follow" c.query; tail = query_value "tail" c.query };
  body = elim c.body [ some b ↦ b | none ↦ K.empty ];
}

MayPass-bearer :
    (K : Codec) (s : Settings K.Body) (token : String) (c : Call K.Body)
    → (s.token ≡ "") ⊎ (s.token ≡ token)
    → c.authorization ≡ bearer token
    → MayPass s (arrived K c)
MayPass-bearer K s token c h e = ground arith

module _ (K : Codec) {R : Runtime} {S : Store} where
  -- A network that reaches the server, at one moment.
  abbrev pub wired :
      Settings K.Body → Moment → Call K.Body → Manager R S → Result (Response K.Body) × Manager R S
  wired s at c m = let (r, m') = serve K s at (arrived K c) m in (ok r, m')

  -- A call with the server's token gets what the route of its request answers.
  pub wired_allowed :
      (s : Settings K.Body) (at : Moment) (token : String) (c : Call K.Body) (m : Manager R S)
      → (s.token ≡ "") ⊎ (s.token ≡ token)
      → c.authorization ≡ bearer token
      → wired s at c m
        ≡ (ok (dispatch K s at (arrived K c) m).0, (dispatch K s at (arrived K c) m).1)
  wired_allowed s at token c m h e =
      ap (λ r. (ok r.0, r.1))
        (serve_allowed K s at (arrived K c) m (MayPass-bearer K s token c h e))

  module _ (chars : Chars) (D : Decoder K.Body) where
    -- What a call comes to, when the server lets it pass.
    abbrev pub answered {κ} :
        {A : Type κ}
        → (Response K.Body → Answer A)
        → Response K.Body × Manager R S
        → Answer A × Manager R S
    answered out r =
        (if leb 400 r.0.status then failed (read_error_response chars D r.0) else out r.0, r.1)

    pub call_allowed {κ} :
        {A : Type κ} (s : Settings K.Body) (at : Moment) (token method : String)
        (path : List String) (query : Dict String) (body : Option K.Body)
        (out : Response K.Body → Answer A) (m : Manager R S)
        → (s.token ≡ "") ⊎ (s.token ≡ token)
        → call chars D token (wired s at) method path query body out m
          ≡ answered out (dispatch K s at (arrived K (call_of token method path query body)) m)
    unfolding call
    call_allowed {A} s at token method path query body out m h =
        ap
          (λ (r : Result (Response K.Body) × Manager R S). (
            elim r.0 as (λ x. Answer A) [
              | err e ↦ failed (broken e)
              | ok resp ↦
                  if leb 400 resp.status
                  then failed (read_error_response chars D resp)
                  else out resp
            ],
            r.1,
          ))
          (wired_allowed s at token (call_of token method path query body) m h refl)
