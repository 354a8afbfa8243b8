-- ===== src/Policy.antt =====
-- internal/policy/policy.go: the policy file's data, `Validate`, and `Resolve`, which merges a
-- request with the defaults, the profile and the image entry.
-- CPU counts (`float64`) are integers in units of 10⁻⁹ cores; durations are in nanoseconds.
pub mod Validate
pub mod Resolve
pub mod Load
pub mod Tests
use kotakpasir.Base.{
  Bool, true, false, not, ◌&&◌, Option, none, some, List, [], ◌∷◌, String, ◌==◌, string_eq,
}
use kotakpasir.Base.{if◌then◌else◌}
use kotakpasir.Base.Dict.{Dict}
use kotakpasir.Base.Int.{ℤ, pos}

pub record Egress : Type 0 where
  pub mode : String
  pub hosts : List String

pub record Defaults : Type 0 where
  pub cpus : ℤ
  pub memory_mb : ℤ
  pub pids_limit : ℤ
  pub user : String
  pub read_only : Bool
  pub network_mode : String
  pub ttl : ℤ
  pub runtime : String

pub record Image : Type 0 where
  pub name : String
  pub description : String
  pub cpus : ℤ
  pub memory_mb : ℤ
  pub ttl : ℤ
  pub egress : Option Egress
  pub pool : ℤ

pub record Profile : Type 0 where
  pub image : String
  pub cpus : ℤ
  pub memory_mb : ℤ
  pub ttl : ℤ
  pub egress : Option Egress

pub record GlobalEgress : Type 0 where
  pub default : Egress
  pub global_deny : List String

pub record Policy : Type 0 where
  pub version : ℤ
  pub defaults : Defaults
  pub images : List Image
  pub profiles : Dict Profile
  pub egress : GlobalEgress

abbrev pub current_version : ℤ
current_version = pos 1

abbrev pub egress_none : String
egress_none = "none"

abbrev pub egress_allowlist : String
egress_allowlist = "allowlist"

-- `ErrPolicyViolation`
abbrev pub policy_violation : String
policy_violation = "policy violation"

-- `Default()`
unfoldable pub default_policy : Policy
default_policy = record {
  version = current_version;
  defaults = record {
    cpus = pos 1000000000;
    memory_mb = pos 512;
    pids_limit = pos 256;
    user = "1000:1000";
    read_only = true;
    network_mode = "none";
    ttl = pos 0;
    runtime = "";
  };
  images = [];
  profiles = [];
  egress = record { default = record { mode = egress_none; hosts = [] }; global_deny = [] };
}

-- `e != nil && e.Mode != "" && e.Mode != EgressNone`
abbrev pub needs_proxy? : Option Egress → Bool
needs_proxy? none = false
needs_proxy? (some e) = not (e.mode == "") && not (e.mode == egress_none)

pub record Request : Type 0 where
  pub profile : String
  pub image : String
  pub cmd : List String
  pub env : Dict String
  pub cpus : ℤ
  pub memory_mb : ℤ
  pub ttl : ℤ
  pub name : String
  pub labels : Dict String

pub record Resolved : Type 0 where
  pub image : String
  pub cmd : List String
  pub env : Dict String
  pub cpus : ℤ
  pub memory_mb : ℤ
  pub pids_limit : ℤ
  pub user : String
  pub read_only : Bool
  pub network_mode : String
  pub ttl : ℤ
  pub runtime_name : String
  pub egress : Egress
  pub name : String
  pub labels : Dict String

-- `(*Policy).findImage`, and the manager's `findImage`.
unfoldable pub find_image : String → List Image → Option Image
find_image name [] = none
find_image name (img ∷ imgs) = if img.name == name then some img else find_image name imgs
