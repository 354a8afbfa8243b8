-- ===== src/Docker.antt =====
-- internal/runtime/docker/docker.go: the Docker backend, over a client that is a parameter.
-- `proxy_image` is the value of KP_PROXY_IMAGE. `Exec`, `Stop` and `Status` are in
-- Docker/Exec, over a client of their own.
pub mod Provision
pub mod Exec
pub mod Backend
pub mod Restart
mod Tests
use kotakpasir.Base.{
  ℕ, ◌+◌, ◌-◌, ◌*◌, Bool, true, false, Option, none, some, List, [], ◌∷◌, ◌++◌, map, String, ◌<>◌,
  if◌then◌else◌, ◌==◌, string_eq, is_empty, message, sentinel, wrap, Error, Result, ok, err,
}
use kotakpasir.Base.Dict.{Dict, lookup, insert, copy}
use kotakpasir.Base.Int.{ℤ, pos, negsuc}
use kotakpasir.Base.Words.{wrapped}
use kotakpasir.Runtime.{Spec, Egress, Handle, no_proxy}

-- `container.Config`, `container.HostConfig` and `network.NetworkingConfig` of one creation, with
-- the fields that the program sets.
pub record ContainerSpec : Type 0 where
  pub name : String
  pub image : String
  pub cmd : List String
  pub user : String
  pub env : List String
  pub labels : Dict String
  pub read_only : Bool
  pub network_mode : String
  pub cap_drop : List String
  pub security_opt : List String
  pub runtime_name : String
  pub tmpfs : Dict String
  pub restart : String
  pub nano_cpus : ℤ
  pub memory : ℤ
  pub pids_limit : ℤ
  pub endpoints : Dict (List String)

pub record NetworkSpec : Type 0 where
  pub name : String
  pub driver : String
  pub internal : Bool
  pub labels : Dict String

-- What an inspection tells: the labels, and the addresses by network.
pub record Inspected : Type 0 where
  pub labels : Dict String
  pub addresses : Option (Dict String)

-- The calls of the Docker client that the backend makes.
pub record Client : Type 1 where
  pub State : Type 0
  pub is_not_found : Error → Bool
  pub container_create : ContainerSpec → State → Result String × State
  pub container_start : String → State → Result (Unit {0}) × State
  pub container_remove : String → State → Result (Unit {0}) × State
  pub container_inspect : String → State → Result Inspected
  pub container_list : String → String → State → Result (List String)
  pub network_create : NetworkSpec → State → Result (Unit {0}) × State
  pub network_remove : String → State → Result (Unit {0}) × State
  pub network_connect : String → String → State → Result (Unit {0}) × State
  pub network_list : String → String → State → Result (List String)
  pub image_inspect : String → State → Result (Unit {0})
  pub image_pull : String → State → Result (Unit {0}) × State

abbrev pub label_sandbox_id : String
label_sandbox_id = "kotakpasir.sandbox-id"

abbrev pub label_managed : String
label_managed = "kotakpasir.managed"

abbrev pub label_role : String
label_role = "kotakpasir.role"

-- Always denied by the proxy.
abbrev pub default_deny_hosts : List String
default_deny_hosts = "169.254.169.254" ∷ "metadata.google.internal" ∷ "metadata.aws.internal" ∷ []

-- `strings.Join(parts, ",")`
unfoldable pub join : List String → String
join [] = ""
join (x ∷ []) = x
join (x ∷ y ∷ xs) = x <> ("," <> join (y ∷ xs))

-- The product with a positive number.
unfoldable pub times : ℤ → ℕ → ℤ
times (pos n) k = pos (n * k)
times (negsuc n) k = negsuc (n * k + (k - 1))

-- `networkOrDefault`
abbrev pub network_or_default : String → String
network_or_default s = if s == "" then "none" else s

-- `flattenEnv`
unfoldable pub flatten_env : Dict String → List String
flatten_env [] = []
flatten_env ((k, v) ∷ env) = (k <> ("=" <> v)) ∷ flatten_env env

-- `buildContainerConfig`, with the name that `Create` gives the container.
unfoldable pub build_container_config : Spec → String → String → ContainerSpec
unfolding times wrapped flatten_env
build_container_config spec network name = record {
  name = name;
  image = spec.image;
  cmd = if is_empty spec.cmd then "tail" ∷ "-f" ∷ "/dev/null" ∷ [] else spec.cmd;
  user = spec.user;
  env =
      if network == ""
      then flatten_env spec.env
      else flatten_env spec.env
        ++ ("HTTPS_PROXY=http://proxy:8080" ∷ "HTTP_PROXY=http://proxy:8080" ∷ "NO_PROXY=" ∷ []);
  labels = spec.labels;
  read_only = spec.read_only;
  network_mode = if network == "" then network_or_default spec.network_mode else network;
  cap_drop = "ALL" ∷ [];
  security_opt = "no-new-privileges:true" ∷ [];
  runtime_name = spec.runtime_name;
  tmpfs = ("/tmp", "rw,size=64m,mode=1777") ∷ [];
  restart = "";
  nano_cpus = spec.cpus;
  memory = wrapped (times spec.memory_mb 1048576);
  pids_limit = spec.pids_limit;
  endpoints = if network == "" then [] else (network, []) ∷ [];
}

-- The proxy's container in `maybeProvisionEgress`.
unfoldable pub proxy_config : String → String → List String → ContainerSpec
unfolding join copy insert
proxy_config proxy_image id hosts = record {
  name = "kp-proxy-" <> id;
  image = if proxy_image == "" then "kotakpasir/proxy:dev" else proxy_image;
  cmd = [];
  user = "";
  env =
      ("KP_ALLOWED_HOSTS=" <> join hosts)
      ∷ ("KP_DENY_HOSTS=" <> join default_deny_hosts)
      ∷ "KP_PROXY_PORT=8080"
      ∷ [];
  labels =
      copy (copy [] ((label_sandbox_id, id) ∷ (label_managed, "true") ∷ []))
        ((label_role, "proxy") ∷ []);
  read_only = true;
  network_mode = "kp-net-" <> id;
  cap_drop = "ALL" ∷ [];
  security_opt = "no-new-privileges:true" ∷ [];
  runtime_name = "";
  tmpfs = [];
  restart = "unless-stopped";
  nano_cpus = pos 0;
  memory = pos 67108864;
  pids_limit = pos 64;
  endpoints = ("kp-net-" <> id, "proxy" ∷ []) ∷ [];
}

-- The per-sandbox network in `maybeProvisionEgress`.
abbrev pub network_config : String → NetworkSpec
network_config id = record {
  name = "kp-net-" <> id;
  driver = "bridge";
  internal = true;
  labels = (label_sandbox_id, id) ∷ (label_role, "network") ∷ (label_managed, "true") ∷ [];
}
