-- ===== src/Policy/Resolve/Precedence.antt =====
-- Where each field of a resolved request comes from.
use kotakpasir.Base.{
  ◌≡◌, Option, none, some, List, [], ◌∷◌, String, if◌then◌else◌, ◌==◌, string_eq, ok, arith,
}
use kotakpasir.Base.Dict.{lookup}
use kotakpasir.Base.Int.{ℤ, pos, is_pos}
use kotakpasir.Policy.{Policy, Egress, Image, Profile, Request, Resolved, find_image}
use kotakpasir.Policy.Resolve.{apply_global_deny, override_egress, resolve}

-- The first positive setting, or the default.
abbrev pub first_pos : List ℤ → ℤ → ℤ
first_pos [] d = d
first_pos (v ∷ vs) d = if is_pos v then v else first_pos vs d

-- A field of an entry that may be absent; 0 stands for unset.
abbrev pub setting {ℓ} : {A : Type ℓ} → (A → ℤ) → Option A → ℤ
setting field none = pos 0
setting field (some a) = field a

abbrev pub section {ℓ} : {A : Type ℓ} → (A → Option Egress) → Option A → Option Egress
section field none = none
section field (some a) = field a

abbrev pub chosen_profile : Policy → Request → Option Profile
chosen_profile p req = if req.profile == "" then none else lookup req.profile p.profiles

abbrev pub profile_image : Option Profile → String
profile_image none = ""
profile_image (some prof) = prof.image

abbrev pub chosen_image : Policy → Request → String
chosen_image p req = if req.image == "" then profile_image (chosen_profile p req) else req.image

abbrev pub image_entry : Policy → Request → Option Image
image_entry p req = find_image (chosen_image p req) p.images

abbrev pub chosen_egress : Policy → Request → Egress
chosen_egress p req =
    override_egress (section (λ i. i.egress) (image_entry p req))
      (override_egress (section (λ f. f.egress) (chosen_profile p req)) p.egress.default)

-- The merged request, field by field.
pub record IsMerge (p : Policy) (req : Request) (out : Resolved) : Type 0 where
  pub image : out.image ≡ chosen_image p req
  pub cpus :
      out.cpus
      ≡ first_pos
          (req.cpus
            ∷ setting (λ i. i.cpus) (image_entry p req)
            ∷ setting (λ f. f.cpus) (chosen_profile p req)
            ∷ [])
          p.defaults.cpus
  pub memory_mb :
      out.memory_mb
      ≡ first_pos
          (req.memory_mb
            ∷ setting (λ i. i.memory_mb) (image_entry p req)
            ∷ setting (λ f. f.memory_mb) (chosen_profile p req)
            ∷ [])
          p.defaults.memory_mb
  pub ttl :
      out.ttl
      ≡ first_pos
          (req.ttl
            ∷ setting (λ i. i.ttl) (image_entry p req)
            ∷ setting (λ f. f.ttl) (chosen_profile p req)
            ∷ [])
          p.defaults.ttl
  pub mode : out.egress.mode ≡ (chosen_egress p req).mode
  pub hosts : out.egress.hosts ≡ apply_global_deny (chosen_egress p req).hosts p.egress.global_deny
  pub pids_limit : out.pids_limit ≡ p.defaults.pids_limit
  pub user : out.user ≡ p.defaults.user
  pub read_only : out.read_only ≡ p.defaults.read_only
  pub network_mode : out.network_mode ≡ p.defaults.network_mode
  pub runtime_name : out.runtime_name ≡ p.defaults.runtime
  pub cmd : out.cmd ≡ req.cmd
  pub env : out.env ≡ req.env
  pub name : out.name ≡ req.name
  pub labels : out.labels ≡ req.labels

-- When `Resolve` succeeds, CPUs, memory and TTL are the first positive value of the request, the
-- image entry, the profile and the defaults, in this order; the egress section is the image
-- entry's, else the profile's, else the default, with the globally denied hosts taken out; the
-- image is the request's, else the profile's; the hardening fields are the defaults'; and the
-- command, environment, name and labels are the request's.
pub resolve-IsMerge :
    (p : Policy) (req : Request) (out : Resolved) → resolve p req ≡ ok out → IsMerge p req out
unfolding resolve
resolve-IsMerge p req out h = ground arith
