-- ===== src/Api/Server.antt =====
-- internal/api/server.go: the routes and the check of the token.
-- A path is the list of its parts between slashes, none of which has a slash. The id of a new sandbox
-- and the time are arguments. Matching of paths is Fiber's: a part `:id` stands for one that is not
-- empty. Its answers to HEAD are left out.
use kotakpasir.Base.{
  ℕ, Bool, true, false, ◌&&◌, Option, none, some, List, [], ◌∷◌, String, if◌then◌else◌, ◌==◌,
  string_eq,
}
use kotakpasir.Base.Text.{strip_text}
use kotakpasir.Runtime.{Runtime}
use kotakpasir.Sandbox.{Store}
use kotakpasir.Api.{Codec}
use kotakpasir.Api.Handlers.{
  Handler, LogsQuery, fail_with, reply, handle_health, handle_create, handle_list, handle_get,
  handle_delete, handle_stop, handle_proxy, handle_logs, handle_exec, handle_exec_stream,
}

-- The options of the server: the token, and what the metrics page says, if there is one.
pub record Settings (Body : Type 0) : Type 0 where
  pub token : String
  pub metrics : Option Body

pub record Request (Body : Type 0) : Type 0 where
  pub method : String
  pub path : List String
  pub authorization : String
  pub query : LogsQuery
  pub body : Body

-- What the code reads from its surroundings: a new UUID and the time.
pub record Moment : Type 0 where
  pub new_id : String
  pub now : ℕ

-- The handlers that `App` registers.
pub data Route : Type 0 where
  to_health : Route
  to_metrics : Route
  to_create : Route
  to_list : Route
  to_get : String → Route
  to_proxy : String → Route
  to_logs : String → Route
  to_delete : String → Route
  to_stop : String → Route
  to_exec : String → Route
  to_exec_stream : String → Route

-- The routes under `/v1/sandboxes/:id`, by the parts behind the id.
abbrev under_id : String → String → List String → Option Route
under_id method id [] =
    if method == "GET"
    then some (to_get id)
    else if method == "DELETE"
    then some (to_delete id)
    else none
under_id method id (op ∷ []) =
    if method == "GET" && op == "proxy"
    then some (to_proxy id)
    else if method == "GET" && op == "logs"
    then some (to_logs id)
    else if method == "POST" && op == "stop"
    then some (to_stop id)
    else if method == "POST" && op == "exec"
    then some (to_exec id)
    else none
under_id method id (op ∷ sub ∷ []) =
    if method == "POST" && op == "exec" && sub == "stream" then some (to_exec_stream id) else none
under_id method id (op ∷ sub ∷ x ∷ xs) = none

-- The routes of `App`; the metrics page is one only where the server has it.
abbrev pub route : Bool → String → List String → Option Route
route with_metrics method [] = none
route with_metrics method (page ∷ []) =
    if method == "GET" && page == "healthz"
    then some to_health
    else if with_metrics && method == "GET" && page == "_metrics"
    then some to_metrics
    else none
route with_metrics method (v ∷ s ∷ []) =
    if v == "v1" && s == "sandboxes"
    then (if method == "POST"
        then some to_create
        else if method == "GET"
        then some to_list
        else none)
    else none
route with_metrics method (v ∷ s ∷ id ∷ more) =
    if v == "v1" && s == "sandboxes"
    then (if id == "" then none else under_id method id more)
    else none

-- `c.Path() == "/healthz" || c.Path() == "/_metrics"`
abbrev pub is_open : List String → Bool
is_open (page ∷ []) = if page == "healthz" then true else page == "_metrics"
is_open _ = false

-- The condition on the header: the prefix `Bearer ` and then the token.
unfoldable pub is_bearer : String → String → Bool
is_bearer header token = elim (strip_text "Bearer " header) [
  | some got ↦ got == token
  | none ↦ false
]

module _ (K : Codec) {R : Runtime} {S : Store} where
  -- The handler of a route.
  unfoldable pub handle : Settings K.Body → Moment → Request K.Body → Route → Handler K R S
  handle s at q to_health = handle_health K
  handle s at q to_metrics =
      λ m. (elim s.metrics [ some page ↦ reply K 200 page | none ↦ K.no_route ], m)
  handle s at q to_create = handle_create K q.body at.new_id at.now
  handle s at q to_list = handle_list K
  handle s at q (to_get id) = handle_get K id
  handle s at q (to_proxy id) = handle_proxy K id
  handle s at q (to_logs id) = handle_logs K id q.query
  handle s at q (to_delete id) = handle_delete K id
  handle s at q (to_stop id) = handle_stop K id
  handle s at q (to_exec id) = handle_exec K id q.body at.now
  handle s at q (to_exec_stream id) = handle_exec_stream K id q.body at.now

  -- `App` behind `authMiddleware`
  unfoldable pub dispatch : Settings K.Body → Moment → Request K.Body → Handler K R S
  dispatch s at q m =
      let with_metrics : Bool = elim s.metrics [ some _ ↦ true | none ↦ false ] in
      elim (route with_metrics q.method q.path) [
        | none ↦ (K.no_route, m)
        | some r ↦ handle s at q r m
      ]

  -- `authMiddleware`
  unfoldable pub serve : Settings K.Body → Moment → Request K.Body → Handler K R S
  serve s at q m =
      if s.token == ""
      then dispatch s at q m
      else if is_open q.path
      then dispatch s at q m
      else if is_bearer q.authorization s.token
      then dispatch s at q m
      else (fail_with K 401 "unauthorized", m)
