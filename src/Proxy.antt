-- ===== src/Proxy.antt =====
-- internal/proxy/proxy.go and cmd/kpproxy/main.go: the egress proxy of a sandbox.
-- The proxy library calls the two handlers that `New` gives it; it is a parameter, and so are
-- `net.SplitHostPort` and the answer of the metrics library. Log lines are left out.
pub mod Admission
pub mod Env
pub mod Tests
use kotakpasir.Base.{
  Bool, true, false, Option, none, some, List, [], ◌∷◌, String, ◌<>◌, if◌then◌else◌, ◌==◌,
  string_eq, contains, is_empty, Result, ok, err,
}
use kotakpasir.Base.Text.{Chars, to_lower, trim_space, cut_comma, strip_text}

pub record Config : Type 0 where
  pub listen_addr : String
  pub allowed_hosts : List String
  pub deny_hosts : List String

-- The counters `kpproxy_connect_allow_total` and `kpproxy_connect_deny_total`.
pub data Count : Type 0 where
  allow : String → Count
  deny : String → String → Count

-- `RejectConnect` and `OkConnect`, with the counter that the handler raises.
pub record Verdict : Type 0 where
  pub is_ok : Bool
  pub count : Count

abbrev pub reject : String → String → Verdict
reject host reason = record { is_ok = false; count = deny host reason }

module _ (chars : Chars) where
  -- `normalize`
  unfoldable pub normalize : List String → List String
  normalize [] = []
  normalize (h ∷ hosts) =
      let h' = to_lower chars (trim_space chars h) in
      let rest = normalize hosts in if h' == "" then rest else h' ∷ rest

  -- `isAllowed`
  unfoldable pub is_allowed : String → List String → Bool
  is_allowed host allowed =
      if is_empty allowed then false else contains allowed (to_lower chars host)

  -- `isDenied`
  unfoldable pub is_denied : String → List String → Bool
  is_denied host denied = contains denied (to_lower chars host)

  -- The handler of CONNECT requests in `New`; `split` is `net.SplitHostPort`.
  unfoldable pub connect : (String → Result (String × String)) → Config → String → Verdict
  connect split cfg host =
      let allowed = normalize cfg.allowed_hosts in
      let denied = normalize cfg.deny_hosts in
      elim (split host) [
        | err _ ↦ reject host "parse_error"
        | ok (hostname, _) ↦
            if is_denied hostname denied
            then reject hostname "global_deny"
            else if is_allowed hostname allowed
            then record { is_ok = true; count = allow hostname }
            else reject hostname "not_in_allowlist"
      ]

  -- The loop of `splitCSV`.
  unfoldable pub keep_parts : List String → List String
  keep_parts [] = []
  keep_parts (p ∷ parts) =
      let p' = trim_space chars p in
      let rest = keep_parts parts in if p' == "" then rest else p' ∷ rest

  -- `splitCSV`
  unfoldable pub split_csv : String → List String
  split_csv s = let (part, parts) = cut_comma s in if s == "" then [] else keep_parts (part ∷ parts)

-- `os.Getenv` on the environment of the process: the first entry of the name, or the empty text.
unfoldable pub getenv : String → List String → String
getenv key [] = ""
getenv key (entry ∷ env) =
    let rest = getenv key env in elim (strip_text (key <> "=") entry) [ some v ↦ v | none ↦ rest ]

-- `envOr`
unfoldable pub env_or : String → String → List String → String
env_or key def env = if getenv key env == "" then def else getenv key env

-- The configuration that `main` builds.
unfoldable pub config_of : Chars → List String → Config
config_of chars env = record {
  listen_addr = ":" <> env_or "KP_PROXY_PORT" "8080" env;
  allowed_hosts = split_csv chars (getenv "KP_ALLOWED_HOSTS" env);
  deny_hosts = split_csv chars (getenv "KP_DENY_HOSTS" env);
}

-- The filter on the other requests in `New`: `none` lets the request through.
abbrev pub filter_plain : String → Option String
filter_plain method =
    if method == "CONNECT" then none else some "plain HTTP not supported; use HTTPS\n"

pub record Request : Type 0 where
  pub method : String
  pub path : String

-- `wrapAdmin`: `metrics` and `proxied` serve what is not the health page.
unfoldable pub wrap_admin {ℓ} : {A : Type ℓ} → A → (Request → A) → (Request → A) → Request → A
wrap_admin healthy metrics proxied r =
    if r.method == "GET"
    then (if r.path == "/_health"
        then healthy
        else if r.path == "/_metrics"
        then metrics r
        else proxied r)
    else proxied r
