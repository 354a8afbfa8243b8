-- ===== src/Client/Sandboxes.antt =====
-- Sandboxes through the client library and the HTTP API: what `Create`, `Get` and `Delete` come to.
use kotakpasir.Base.{
  ◌≡◌, ◌≢◌, ◌⊎◌, inl, inr, refl, sym, ap, subst, ◌∙◌, Bool, true, false, none, some, [], ◌∷◌,
  String, if◌then◌else◌, ◌==◌, string_eq, string_dec, nat_eq, Result, ok, err, arith, Result-cases,
}
use kotakpasir.Base.Text.{Chars}
use kotakpasir.Runtime.{Runtime}
use kotakpasir.Sandbox.{Sandbox, Store}
use kotakpasir.Manager.{Manager}
use kotakpasir.Manager.Create
use kotakpasir.Manager.Lifecycle
use kotakpasir.Api.{Codec, View, CreateRequest, to_api}
use kotakpasir.Api.Handlers.{options_of, lookup_error, handle_create, handle_get, handle_delete}
use kotakpasir.Api.Server.{
  Settings, Moment, Request, Route, to_create, to_get, to_delete, route, handle, dispatch,
}
use kotakpasir.Client.{
  Decoder, Answer, fine, failed, decoded, no_view, CreateOptions, request_of, read_error_response,
  do_decode, do_discard, sandbox_path,
}
use kotakpasir.Client.Methods.{create, get, delete}
use kotakpasir.Client.Wire.{IsWire, CreateArrives, wired, answered, call_allowed}

pub is_filled : (id : String) → id ≢ "" → (id == "") ≡ false
is_filled id h = ground (arith, h)

-- Of the paths under an id that is not empty, those that the methods ask for.
route_get :
    (b : Bool) (id : String) → id ≢ "" → route b "GET" (sandbox_path id []) ≡ some (to_get id)
unfolding string_eq string_dec
route_get b id h = ap (λ c. if c then none else some (to_get id)) (is_filled id h)

route_delete :
    (b : Bool) (id : String) → id ≢ "" → route b "DELETE" (sandbox_path id []) ≡ some (to_delete id)
unfolding string_eq string_dec
route_delete b id h = ap (λ c. if c then none else some (to_delete id)) (is_filled id h)

route_create : (b : Bool) → route b "POST" ("v1" ∷ "sandboxes" ∷ []) ≡ some to_create
unfolding string_eq string_dec
route_create b = refl

-- The answer for the result of a method that looks a sandbox up.
abbrev pub looked_up {ℓ κ} :
    {A : Type ℓ} {B : Type κ} (K : Codec) → Chars → Decoder K.Body → (A → B) → Result A → Answer B
looked_up K chars D f (ok a) = fine (f a)
looked_up K chars D f (err e) = failed (read_error_response chars D (lookup_error K e))

module _ (K : Codec) {R : Runtime} {S : Store} where
  pub dispatch_routed :
      (s : Settings K.Body) (at : Moment) (q : Request K.Body) (m : Manager R S) (r : Route)
      → ((b : Bool) → route b q.method q.path ≡ some r)
      → dispatch K s at q m ≡ handle K s at q r m
  unfolding dispatch
  dispatch_routed s at q m r h = ground (arith, h true, h false)

  module _ (chars : Chars) (D : Decoder K.Body) (wire : IsWire K D) (s : Settings K.Body)
      (token : String) (same : (s.token ≡ "") ⊎ (s.token ≡ token)) where
    read_get :
        (id : String) (m : Manager R S)
        → answered K chars D (decoded no_view D.view_of) (handle_get K id m)
          ≡ (looked_up K chars D to_api (Lifecycle.get id m).0, (Lifecycle.get id m).1)
    unfolding handle_get
    read_get id m = elim (Result-cases (Lifecycle.get id m).0) [
      | inl (sb, e) ↦ ground (arith, e, wire.view_law (to_api sb))
      | inr (x, e) ↦ ground (arith, e)
    ]

    -- What `Get` comes to behind the HTTP API.
    pub get_served :
        (at : Moment) (id : String) (m : Manager R S)
        → id ≢ ""
        → get chars D token (wired K s at) id m
          ≡ (looked_up K chars D to_api (Lifecycle.get id m).0, (Lifecycle.get id m).1)
    unfolding get do_decode handle
    get_served at id m h =
        call_allowed K chars D s at token "GET" (sandbox_path id []) [] none
          (decoded no_view D.view_of) m same
        ∙ ap (answered K chars D (decoded no_view D.view_of))
            (dispatch_routed s at _ m (to_get id) (λ b. route_get b id h))
        ∙ read_get id m

    read_delete :
        (id : String) (m : Manager R S)
        → answered K chars D (λ resp. fine tt) (handle_delete K id m)
          ≡ (looked_up K chars D (λ u. u) (Lifecycle.delete id m).0, (Lifecycle.delete id m).1)
    unfolding handle_delete
    read_delete id m = ground arith

    -- What `Delete` comes to behind the HTTP API.
    pub delete_served :
        (at : Moment) (id : String) (m : Manager R S)
        → id ≢ ""
        → delete chars D token (wired K s at) id m
          ≡ (looked_up K chars D (λ u. u) (Lifecycle.delete id m).0, (Lifecycle.delete id m).1)
    unfolding delete do_discard handle
    delete_served at id m h =
        call_allowed K chars D s at token "DELETE" (sandbox_path id []) [] none (λ resp. fine tt) m
          same
        ∙ ap (answered K chars D (λ resp. fine tt))
            (dispatch_routed s at _ m (to_delete id) (λ b. route_delete b id h))
        ∙ read_delete id m

    -- A creation that the client can read was one.
    abbrev pub Made : CreateRequest → Moment → Manager R S → View → Manager R S → Type 0
    Made req at m v n =
        let r = Create.create (options_of req) at.new_id at.now m in
        (sb : Sandbox) × (r.0 ≡ ok sb) × (v ≡ to_api sb) × (n ≡ r.1)

    read_create :
        (req : CreateRequest) (at : Moment) (m : Manager R S) (v : View)
        → CreateArrives K D req
        → let a =
            answered K chars D
              (decoded no_view D.view_of)
              (handle_create K (D.create_body req) at.new_id at.now m) in
          a.0 ≡ fine v → Made req at m v a.1
    unfolding handle_create
    read_create req at m v law h =
        elim (Result-cases (Create.create (options_of req) at.new_id at.now m).0) [
          | inl (sb, e) ↦
              let back = wire.view_law (to_api sb) in
              (sb, e, ground (arith, law, back, e, h), ground (arith, law, back, e, h))
          | inr (x, e) ↦ ground (arith, law, e, h)
        ]

    -- What `Create` comes to behind the HTTP API, where it succeeds.
    pub create_served :
        (at : Moment) (opts : CreateOptions) (m : Manager R S) (v : View)
        → CreateArrives K D (request_of opts)
        → (create chars D token (wired K s at) opts m).0 ≡ fine v
        → Made (request_of opts) at m v (create chars D token (wired K s at) opts m).1
    unfolding create do_decode handle handle_create
    create_served at opts m v law h =
        let body = D.create_body (request_of opts) in
        let served =
          call_allowed K chars D s at token "POST" ("v1" ∷ "sandboxes" ∷ []) [] (some body)
            (decoded no_view D.view_of) m same
          ∙ ap (answered K chars D (decoded no_view D.view_of))
              (dispatch_routed s at _ m to_create (λ b. route_create b)) in
        subst (λ (a : Answer View × Manager R S). a.0 ≡ fine v → Made (request_of opts) at m v a.1)
          (sym served) (read_create (request_of opts) at m v law) h
