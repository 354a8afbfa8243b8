-- ===== src/Api/Tests.antt =====
-- A wire on which a body is what it encodes, and a server with a token.
use kotakpasir.Base.{
  ◌≡◌, ◌⊎◌, none, List, [], ◌∷◌, String, ◌==◌, string_eq, nat_eq, message, Error, Result, ok, err,
}
use kotakpasir.Base.Int.{pos}
use kotakpasir.Manager.Health.{HealthReport}
use kotakpasir.Manager.Tests.{node}
use kotakpasir.Sse.{Bytes}
use kotakpasir.Sse.Parse.{Exit}
use kotakpasir.Api.{Codec, View, CreateRequest, ExecRequest, ExecResponse}
use kotakpasir.Api.Handlers.{fail_with}
use kotakpasir.Api.Server.{Settings, Moment, Request, serve, dispatch}
use kotakpasir.Api.Access.{MayPass, serve_outcome}

pub data Message : Type 0 where
  nothing : Message
  told : String → Message
  seen : View → Message
  asked : CreateRequest → Message
  ran : ExecRequest → Message
  bytes : Bytes → Message
  replied : ExecResponse → Message

abbrev unreadable {ℓ} : {A : Type ℓ} → Result A
unreadable = err (message "unexpected message" [])

abbrev create_of : Message → Result CreateRequest
create_of (asked req) = ok req
create_of _ = unreadable

abbrev exec_of : Message → Result ExecRequest
exec_of (ran req) = ok req
exec_of _ = unreadable

abbrev pub simple : Codec
simple = record {
  Body = Message;
  empty = nothing;
  plain = bytes;
  error = told;
  view = seen;
  views = λ (vs : List View). nothing;
  report = λ (r : HealthReport). nothing;
  exec_response = replied;
  proxy = told;
  create_of = create_of;
  exec_of = exec_of;
  exit_json = λ (x : Exit). b'0' ∷ [];
  quoted = λ (s : String). [];
  text = λ (e : Error). "";
  equal_fold = λ (a b : String). a == b;
  atoi = λ (s : String). ok (pos 1);
  no_route = record { status = 404; body = nothing };
}

abbrev pub guarded : Settings Message
guarded = record { token = "secret"; metrics = none }

abbrev pub noon : Moment
noon = record { new_id = "new"; now = 7 }

abbrev stop_job : Request Message
stop_job = record {
  method = "POST";
  path = "v1" ∷ "sandboxes" ∷ "job" ∷ "stop" ∷ [];
  authorization = "Bearer guess";
  query = record { follow = ""; tail = "" };
  body = nothing;
}

serve_outcome_example :
    (MayPass guarded stop_job
      × (serve simple guarded noon stop_job node ≡ dispatch simple guarded noon stop_job node))
    ⊎ ((¬ MayPass guarded stop_job)
        × (serve simple guarded noon stop_job node ≡ (fail_with simple 401 "unauthorized", node)))
serve_outcome_example = serve_outcome simple guarded noon stop_job node
