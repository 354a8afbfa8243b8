-- ===== src/Policy/Tests.antt =====
-- A policy with two images and two profiles, and requests under it.
use kotakpasir.Base.{
  ◌≡◌, ◌≢◌, ◌↔◌, ◌⊎◌, refl, true, false, none, some, [], ◌∷◌, String, string_eq, contains, All,
  Error, Result, is_error, ok, err, message,
}
use kotakpasir.Base.Dict.{lookup}
use kotakpasir.Base.Int.{pos, int_eq}
use kotakpasir.Policy.{
  Policy, Image, Profile, Request, Resolved, find_image, policy_violation, egress_allowlist,
}
use kotakpasir.Policy.Load.{load}
use kotakpasir.Policy.Validate.{validate}
use kotakpasir.Policy.Validate.Laws.{IsValid, names, validate-IsValid}
use kotakpasir.Policy.Resolve.{apply_global_deny, resolve}
use kotakpasir.Policy.Resolve.Precedence.{IsMerge, resolve-IsMerge}
use kotakpasir.Policy.Resolve.Admission.{IsAdmitted, resolve_total, resolve_confined}

abbrev pub alpine : Image
alpine = record {
  name = "alpine:latest";
  description = "";
  cpus = pos 0;
  memory_mb = pos 256;
  ttl = pos 0;
  egress = none;
  pool = pos 2;
}

abbrev pub python : Image
python = record {
  name = "python:3.12";
  description = "with pip";
  cpus = pos 2000000000;
  memory_mb = pos 0;
  ttl = pos 0;
  egress = some (record { mode = egress_allowlist; hosts = "pypi.org" ∷ "evil.com" ∷ [] });
  pool = pos 0;
}

abbrev pub data_profile : Profile
data_profile = record {
  image = "python:3.12";
  cpus = pos 0;
  memory_mb = pos 1024;
  ttl = pos 0;
  egress = none;
}

abbrev pub team_policy : Policy
team_policy = record {
  version = pos 1;
  defaults = record {
    cpus = pos 1000000000;
    memory_mb = pos 512;
    pids_limit = pos 256;
    user = "1000:1000";
    read_only = true;
    network_mode = "none";
    ttl = pos 0;
    runtime = "";
  };
  images = alpine ∷ python ∷ [];
  profiles = ("data", data_profile) ∷ [];
  egress = record { default = record { mode = "none"; hosts = [] }; global_deny = "evil.com" ∷ [] };
}

abbrev pub data_request : Request
data_request = record {
  profile = "data";
  image = "";
  cmd = "python" ∷ [];
  env = [];
  cpus = pos 0;
  memory_mb = pos 0;
  ttl = pos 60;
  name = "job";
  labels = [];
}

abbrev pub data_resolved : Resolved
data_resolved = record {
  image = "python:3.12";
  cmd = "python" ∷ [];
  env = [];
  cpus = pos 2000000000;
  memory_mb = pos 1024;
  pids_limit = pos 256;
  user = "1000:1000";
  read_only = true;
  network_mode = "none";
  ttl = pos 60;
  runtime_name = "";
  egress = record { mode = "allowlist"; hosts = "pypi.org" ∷ [] };
  name = "job";
  labels = [];
}

team_policy-validate : validate team_policy ≡ ok tt
unfolding validate string_eq int_eq
team_policy-validate = refl

data_request-resolve : resolve team_policy data_request ≡ ok data_resolved
unfolding resolve string_eq lookup find_image apply_global_deny
data_request-resolve = refl

validate_twice :
    validate (record team_policy { images = alpine ∷ alpine ∷ [] })
    ≡ err (message "images[%d]: duplicate image %q" ("alpine:latest" ∷ []))
unfolding validate string_eq int_eq
validate_twice = refl

validate-IsValid_example : (validate team_policy ≡ ok tt) ↔ IsValid team_policy
validate-IsValid_example = validate-IsValid team_policy

resolve-IsMerge_example : IsMerge team_policy data_request data_resolved
resolve-IsMerge_example =
    resolve-IsMerge team_policy data_request data_resolved data_request-resolve

resolve_total_example :
    (IsAdmitted team_policy data_request
      × ((out : Resolved) × (resolve team_policy data_request ≡ ok out)))
    ⊎ ((¬ IsAdmitted team_policy data_request)
        × ((e : Error) × (resolve team_policy data_request ≡ err e)
            × (is_error e policy_violation ≡ true)))
resolve_total_example = resolve_total team_policy data_request

resolve_confined_example :
    (data_resolved.image ≢ "")
    × ((team_policy.images ≡ []) ⊎ (contains (names team_policy.images) data_resolved.image ≡ true))
    × All (λ h. contains team_policy.egress.global_deny h ≡ false) data_resolved.egress.hosts
resolve_confined_example =
    resolve_confined team_policy data_request data_resolved data_request-resolve

abbrev read_any : String → Result String
read_any path = ok "version: 1"

abbrev parse_any : String → Result Policy
parse_any text = ok team_policy

team_policy-load : load read_any parse_any "policy.yaml" ≡ ok team_policy
unfolding load string_eq validate int_eq
team_policy-load = refl
