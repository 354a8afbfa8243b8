-- ===== src/Api/Access.antt =====
-- Who gets past the check of the token.
use kotakpasir.Base.{
  ◌≡◌, ◌↔◌, ◌⊎◌, List, [], ◌∷◌, inl, inr, Option-cases, true, String, ◌<>◌, string_eq, arith,
}
use kotakpasir.Base.Text.{strip_text, strip_text-append, strip_text-some}
use kotakpasir.Runtime.{Runtime}
use kotakpasir.Sandbox.{Store}
use kotakpasir.Manager.{Manager}
use kotakpasir.Api.{Codec}
use kotakpasir.Api.Handlers.{fail_with}
use kotakpasir.Api.Server.{Settings, Moment, Request, is_open, is_bearer, dispatch, serve}

is_bearer_own : (token : String) → is_bearer ("Bearer " <> token) token ≡ true
unfolding is_bearer
is_bearer_own token = ground (arith, strip_text-append "Bearer " token)

header_of-is_bearer :
    (header token : String) → is_bearer header token ≡ true → header ≡ "Bearer " <> token
unfolding is_bearer
header_of-is_bearer header token h = elim (Option-cases (strip_text "Bearer " header)) [
  | inl e ↦ ground (arith, h, e)
  | inr (got, e) ↦ ground (arith, h, e, strip_text-some "Bearer " header got e)
]

-- The two pages that need no token: `/healthz` and `/_metrics`.
abbrev pub IsPublic : List String → Type 0
IsPublic path = (path ≡ "healthz" ∷ []) ⊎ (path ≡ "_metrics" ∷ [])

is_open_iff : (path : List String) → (is_open path ≡ true) ↔ IsPublic path
is_open_iff [] = ground arith
is_open_iff (page ∷ []) = ground arith
is_open_iff (page ∷ x ∷ path) = ground arith

-- A request may pass: the server has no token, the page is a public one, or the header carries the
-- token.
abbrev pub MayPass : {Body : Type 0} → Settings Body → Request Body → Type 0
MayPass s q = (s.token ≡ "") ⊎ (IsPublic q.path ⊎ (q.authorization ≡ "Bearer " <> s.token))

module _ (K : Codec) {R : Runtime} {S : Store} where
  pub serve_allowed :
      (s : Settings K.Body) (at : Moment) (q : Request K.Body) (m : Manager R S)
      → MayPass s q
      → serve K s at q m ≡ dispatch K s at q m
  unfolding serve
  serve_allowed s at q m may = ground (arith, may, is_bearer_own s.token, is_open_iff q.path)

  -- A request may pass where the server has no token, the page is `/healthz` or `/_metrics`, or the
  -- header is `Bearer ` and the token. Such a request gets what its route answers. Any other gets the status 401, and the
  -- manager is as it was.
  pub serve_outcome :
      (s : Settings K.Body) (at : Moment) (q : Request K.Body) (m : Manager R S)
      → (MayPass s q × (serve K s at q m ≡ dispatch K s at q m))
        ⊎ ((¬ MayPass s q) × (serve K s at q m ≡ (fail_with K 401 "unauthorized", m)))
  unfolding serve
  serve_outcome s at q m = ground (
    arith,
    is_bearer_own s.token,
    header_of-is_bearer q.authorization s.token,
    is_open_iff q.path,
  )
