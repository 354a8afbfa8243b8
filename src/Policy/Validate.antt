-- ===== src/Policy/Validate.antt =====
-- internal/policy/policy.go: `(*Policy).Validate` and `(*Egress).Validate`.
-- A message keeps its format and the texts it quotes; the positions `%d` are left out.
pub mod Laws
use kotakpasir.Base.{
  ◌≡◌, Bool, true, false, not, ◌&&◌, ◌||◌, Option, none, some, List, [], ◌∷◌, String, if◌then◌else◌,
  ◌==◌, string_eq, contains, is_empty, message, wrap, Result, ok, err, ◌>>=◌, ◌>>◌, fail_if,
}
use kotakpasir.Base.Dict.{Dict}
use kotakpasir.Base.Int.{is_pos, is_neg, int_eq}
use kotakpasir.Policy.{
  Policy, Egress, Image, Profile, egress_none, egress_allowlist, current_version, needs_proxy?,
}

-- `(*Egress).Validate`
validate_egress : Egress → Result (Unit {0})
validate_egress e =
    if e.mode == "" || (e.mode == egress_none || e.mode == egress_allowlist)
    then ok tt
    else err (message "mode=%q invalid (want none|allowlist)" (e.mode ∷ []))

-- An optional egress section: absent is fine, an error gets the caller's context.
validate_egress? : String → List String → Option Egress → Result (Unit {0})
validate_egress? context args none = ok tt
validate_egress? context args (some e) = elim (validate_egress e) [
  | ok _ ↦ ok tt
  | err cause ↦ err (wrap context args cause)
]

-- One round of the loop over the images; `names` is `imageNames`.
validate_image : List String → Image → Result (Unit {0})
validate_image names img = do
  fail_if (img.name == "") (message "images[%d]: name is required" [])
  fail_if (contains names img.name) (message "images[%d]: duplicate image %q" (img.name ∷ []))
  validate_egress? "images[%s].egress: %w" (img.name ∷ []) img.egress
  fail_if (is_neg img.pool) (message "images[%s]: pool must be >= 0" (img.name ∷ []))
  fail_if (is_pos img.pool && needs_proxy? img.egress) (
      message
        "images[%s]: pool not supported with egress.mode=%q (per-sandbox proxy is incompatible with pre-warming)"
        (img.name ∷ (elim img.egress [ none ↦ "" | some e ↦ e.mode ]) ∷ []))

-- The loop, which returns `imageNames`.
validate_images : List String → List Image → Result (List String)
validate_images names [] = ok names
validate_images names (img ∷ imgs) =
    let rest = validate_images (img.name ∷ names) imgs in
    elim (validate_image names img) [ ok _ ↦ rest | err e ↦ err e ]

validate_profile : List Image → List String → String × Profile → Result (Unit {0})
validate_profile images names (name, prof) = do
  fail_if (prof.image == "") (message "profiles[%s]: image is required" (name ∷ []))
  fail_if (not (is_empty images) && not (contains names prof.image))
      (message "profiles[%s]: image %q not in images list" (name ∷ prof.image ∷ []))
  validate_egress? "profiles[%s].egress: %w" (name ∷ []) prof.egress

validate_profiles : List Image → List String → Dict Profile → Result (Unit {0})
validate_profiles images names [] = ok tt
validate_profiles images names (entry ∷ profiles) =
    let rest = validate_profiles images names profiles in
    elim (validate_profile images names entry) [ ok _ ↦ rest | err e ↦ err e ]

-- The two checks behind the loops.
validate_rest : Policy → Result (Unit {0})
validate_rest p = do
  validate_egress? "egress.default: %w" [] (some p.egress.default)
  fail_if
      (not (p.defaults.network_mode == "")
        && (not (p.defaults.network_mode == "none") && not (p.defaults.network_mode == "bridge")))
      (message "defaults.network_mode=%q invalid (want none|bridge)" (p.defaults.network_mode ∷ []))

-- `(*Policy).Validate`
unfoldable pub validate : Policy → Result (Unit {0})
unfolding validate_images validate_profiles validate_rest validate_image validate_profile
    validate_egress? validate_egress
validate p = do
  fail_if (not (p.version == current_version)) (message "unsupported version %d (want %d)" [])
  names ← validate_images [] p.images
  validate_profiles p.images names p.profiles
  validate_rest p
