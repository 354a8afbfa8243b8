-- ===== src/Policy/Resolve.antt =====
-- internal/policy/policy.go: `(*Policy).Resolve` and `applyGlobalDeny`.
pub mod Precedence
pub mod Admission
use kotakpasir.Base.{
  Bool, false, ◌||◌, Option, none, some, List, [], ◌∷◌, String, if◌then◌else◌, ◌==◌, string_eq,
  contains, is_empty, sentinel, wrap, Result, ok, err, ◌>>=◌, ◌>>◌, fail_if, Error,
}
use kotakpasir.Base.Dict.{lookup}
use kotakpasir.Base.Int.{ℤ, pos, is_pos}
use kotakpasir.Policy.{
  Policy, Egress, Image, Profile, Request, Resolved, policy_violation, find_image,
}

-- The loop of `applyGlobalDeny`.
keep_allowed : List String → List String → List String
keep_allowed [] deny = []
keep_allowed (h ∷ hosts) deny =
    let rest = keep_allowed hosts deny in if contains deny h then rest else h ∷ rest

-- `applyGlobalDeny`
unfoldable pub apply_global_deny : List String → List String → List String
unfolding keep_allowed
apply_global_deny hosts deny =
    if is_empty hosts || is_empty deny then hosts else keep_allowed hosts deny

-- `if v > 0 { field = v }`
abbrev pub override : ℤ → ℤ → ℤ
override v field = if is_pos v then v else field

-- `if e != nil { field = *e }`
abbrev pub override_egress : Option Egress → Egress → Egress
override_egress none field = field
override_egress (some e) field = e

-- `fmt.Errorf("%w: ...", ErrPolicyViolation, ...)`
abbrev pub violation : String → List String → Error
violation format args = wrap format args (sentinel policy_violation)

-- `out` as it is declared, from the defaults.
from_defaults : Policy → Resolved
from_defaults p = record {
  image = "";
  cmd = [];
  env = [];
  cpus = p.defaults.cpus;
  memory_mb = p.defaults.memory_mb;
  pids_limit = p.defaults.pids_limit;
  user = p.defaults.user;
  read_only = p.defaults.read_only;
  network_mode = p.defaults.network_mode;
  ttl = p.defaults.ttl;
  runtime_name = p.defaults.runtime;
  egress = p.egress.default;
  name = "";
  labels = [];
}

-- The fields that a profile sets.
apply_profile : Profile → Resolved → Resolved
apply_profile prof out = record out {
  image = prof.image;
  cpus = override prof.cpus out.cpus;
  memory_mb = override prof.memory_mb out.memory_mb;
  ttl = override prof.ttl out.ttl;
  egress = override_egress prof.egress out.egress;
}

-- `if req.Profile != "" { ... }`
with_profile : Policy → Request → Resolved → Result Resolved
with_profile p req out =
    if req.profile == "" then ok out else elim (lookup req.profile p.profiles) [
      | none ↦ err (violation "%w: profile %q not found" (req.profile ∷ []))
      | some prof ↦ ok (apply_profile prof out)
    ]

-- The fields that an image entry sets.
apply_image : Image → Resolved → Resolved
apply_image img out = record out {
  cpus = override img.cpus out.cpus;
  memory_mb = override img.memory_mb out.memory_mb;
  ttl = override img.ttl out.ttl;
  egress = override_egress img.egress out.egress;
}

-- The image entry, and the allowlist that a list of images makes.
with_image : Policy → Resolved → Result Resolved
with_image p out = elim (find_image out.image p.images) [
  | some img ↦ ok (apply_image img out)
  | none ↦
      if is_empty p.images
      then ok out
      else err (violation "%w: image %q not in policy.images allowlist" (out.image ∷ []))
]

-- The fields that the request sets, and the global deny list.
apply_request : Policy → Request → Resolved → Resolved
apply_request p req out = record out {
  cpus = override req.cpus out.cpus;
  memory_mb = override req.memory_mb out.memory_mb;
  ttl = override req.ttl out.ttl;
  cmd = req.cmd;
  env = req.env;
  name = req.name;
  labels = req.labels;
  egress = record {
    mode = out.egress.mode;
    hosts = apply_global_deny out.egress.hosts p.egress.global_deny;
  };
}

-- `if req.Image != "" { out.Image = req.Image }`
choose_image : Request → Resolved → Resolved
choose_image req out = if req.image == "" then out else record out { image = req.image }

-- `(*Policy).Resolve`
unfoldable pub resolve : Policy → Request → Result Resolved
unfolding from_defaults with_profile with_image choose_image apply_request apply_profile apply_image
resolve p req = do
  profiled ← with_profile p req (from_defaults p)
  let chosen = choose_image req profiled
  fail_if (chosen.image == "")
      (violation "%w: image is required (set request.Image or use a profile)" [])
  out ← with_image p chosen
  ok (apply_request p req out)
