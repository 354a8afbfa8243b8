-- ===== src/Policy/Validate/Laws.antt =====
-- What `Validate` accepts, told without its order of checks.
use kotakpasir.Base.{
  ◌≡◌, ◌≢◌, refl, ◌↔◌, ◌⊎◌, inl, inr, true, false, ◌||◌, Option, none, some, List, [], ◌∷◌, map,
  String, string_eq, contains, All, IsNodup, ok, arith, Result-cases,
}
use kotakpasir.Base.Dict.{Dict}
use kotakpasir.Base.Int.{is_pos, is_neg, int_eq}
use kotakpasir.Policy.{
  Policy, Egress, Image, Profile, egress_none, egress_allowlist, current_version, needs_proxy?,
}
use kotakpasir.Policy.Validate.{
  validate_egress, validate_egress?, validate_image, validate_images, validate_profile,
  validate_profiles, validate_rest, validate,
}

abbrev pub IsMode : String → Type 0
IsMode m = (m ≡ "") ⊎ ((m ≡ egress_none) ⊎ (m ≡ egress_allowlist))

abbrev pub HasMode : Option Egress → Type 0
HasMode none = Unit
HasMode (some e) = IsMode e.mode

abbrev pub IsNetworkMode : String → Type 0
IsNetworkMode m = (m ≡ "") ⊎ ((m ≡ "none") ⊎ (m ≡ "bridge"))

-- An image entry by itself.
pub record IsImage (img : Image) : Type 0 where
  pub named : img.name ≢ ""
  pub mode : HasMode img.egress
  pub pool_size : is_neg img.pool ≡ false
  pub poolable : (is_pos img.pool ≡ false) ⊎ (needs_proxy? img.egress ≡ false)

abbrev pub names : List Image → List String
names = map λ img. img.name

-- A profile entry, given the images.
pub record IsProfile (images : List Image) (entry : String × Profile) : Type 0 where
  pub imaged : entry.1.image ≢ ""
  pub listed : (images ≡ []) ⊎ (contains (names images) entry.1.image ≡ true)
  pub mode : HasMode entry.1.egress

pub record IsValid (p : Policy) : Type 0 where
  pub version : p.version ≡ current_version
  pub images : All IsImage p.images
  pub distinct : IsNodup (names p.images)
  pub profiles : All (IsProfile p.images) p.profiles
  pub default_mode : IsMode p.egress.default.mode
  pub network_mode : IsNetworkMode p.defaults.network_mode

validate_egress?_iff :
    (c : String) (args : List String) (e : Option Egress)
    → (validate_egress? c args e ≡ ok tt) ↔ HasMode e
unfolding validate_egress? validate_egress
validate_egress?_iff c args none = ground arith
validate_egress?_iff c args (some e) = ground arith

validate_image_iff :
    (seen : List String) (img : Image)
    → (validate_image seen img ≡ ok tt) ↔ ((contains seen img.name ≡ false) × IsImage img)
unfolding validate_image
validate_image_iff seen img =
    ground (arith, validate_egress?_iff "images[%s].egress: %w" (img.name ∷ []) img.egress)

-- `imageNames` when the loop has passed every image.
abbrev collected : List String → List Image → List String
collected seen [] = seen
collected seen (img ∷ imgs) = collected (img.name ∷ seen) imgs

-- No name stands among the seen ones, nor twice.
abbrev IsFresh : List String → List Image → Type 0
IsFresh seen [] = Unit
IsFresh seen (img ∷ imgs) = (contains seen img.name ≡ false) × IsFresh (img.name ∷ seen) imgs

validate_images_sound :
    (seen : List String) (imgs : List Image) (r : List String)
    → validate_images seen imgs ≡ ok r
    → All IsImage imgs × IsFresh seen imgs × (r ≡ collected seen imgs)
unfolding validate_images
validate_images_sound seen [] r h = (tt, tt, ground arith)
validate_images_sound seen (img ∷ imgs) r h =
    ground (arith, validate_image_iff seen img, validate_images_sound (img.name ∷ seen) imgs r)

validate_images_complete :
    (seen : List String) (imgs : List Image)
    → All IsImage imgs
    → IsFresh seen imgs
    → validate_images seen imgs ≡ ok (collected seen imgs)
unfolding validate_images
validate_images_complete seen [] a f = refl
validate_images_complete seen (img ∷ imgs) (i, a) (n, f) =
    ground (arith, validate_image_iff seen img, validate_images_complete (img.name ∷ seen) imgs a f)

contains-collected :
    (seen : List String) (imgs : List Image) (x : String)
    → contains (collected seen imgs) x ≡ (contains seen x || contains (names imgs) x)
contains-collected seen [] x = ground arith
contains-collected seen (img ∷ imgs) x = ground (arith, contains-collected (img.name ∷ seen) imgs x)

IsApart : List String → List Image → Type 0
IsApart seen imgs = All (λ img. contains seen img.name ≡ false) imgs

IsApart-cons :
    (s : String) (seen : List String) (imgs : List Image)
    → IsApart (s ∷ seen) imgs ↔ (IsApart seen imgs × (contains (names imgs) s ≡ false))
unfolding IsApart
IsApart-cons s seen [] = ground arith
IsApart-cons s seen (img ∷ imgs) = ground (arith, IsApart-cons s seen imgs)

IsFresh-iff :
    (seen : List String) (imgs : List Image)
    → IsFresh seen imgs ↔ (IsApart seen imgs × IsNodup (names imgs))
unfolding IsApart
IsFresh-iff seen [] = ground arith
IsFresh-iff seen (img ∷ imgs) =
    ground (arith, IsFresh-iff (img.name ∷ seen) imgs, IsApart-cons img.name seen imgs)

IsApart-nil : (imgs : List Image) → IsApart [] imgs
unfolding IsApart
IsApart-nil [] = tt
IsApart-nil (img ∷ imgs) = (refl, IsApart-nil imgs)

validate_profile_iff :
    (imgs : List Image) (name : String) (prof : Profile)
    → (validate_profile imgs (collected [] imgs) (name, prof) ≡ ok tt) ↔ IsProfile imgs (name, prof)
unfolding validate_profile
validate_profile_iff [] name prof =
    ground (arith, validate_egress?_iff "profiles[%s].egress: %w" (name ∷ []) prof.egress)
validate_profile_iff (img ∷ imgs) name prof = ground (
  arith,
  validate_egress?_iff "profiles[%s].egress: %w" (name ∷ []) prof.egress,
  contains-collected [] (img ∷ imgs) prof.image,
)

validate_profiles_iff :
    (imgs : List Image) (profiles : Dict Profile)
    → (validate_profiles imgs (collected [] imgs) profiles ≡ ok tt) ↔ All (IsProfile imgs) profiles
unfolding validate_profiles
validate_profiles_iff imgs [] = ground arith
validate_profiles_iff imgs ((name, prof) ∷ profiles) =
    ground (arith, validate_profile_iff imgs name prof, validate_profiles_iff imgs profiles)

validate_rest_iff :
    (p : Policy)
    → (validate_rest p ≡ ok tt)
      ↔ (IsMode p.egress.default.mode × IsNetworkMode p.defaults.network_mode)
unfolding validate_rest
validate_rest_iff p =
    ground (arith, validate_egress?_iff "egress.default: %w" [] (some p.egress.default))

validate_images_iff :
    (imgs : List Image)
    → (validate_images [] imgs ≡ ok (collected [] imgs)) ↔ (All IsImage imgs × IsNodup (names imgs))
validate_images_iff imgs = ground (
  arith,
  validate_images_sound [] imgs (collected [] imgs),
  validate_images_complete [] imgs,
  IsFresh-iff [] imgs,
  IsApart-nil imgs,
)

validate_sound : (p : Policy) → validate p ≡ ok tt → IsValid p
unfolding validate
validate_sound p h = elim (Result-cases (validate_images [] p.images)) [
  | inl (r, e) ↦ ground (
    arith,
    e,
    validate_images_sound [] p.images r e,
    validate_images_iff p.images,
    validate_profiles_iff p.images p.profiles,
    validate_rest_iff p,
  )
  | inr (e, refused) ↦ ground (arith, refused)
]

validate_complete : (p : Policy) → IsValid p → validate p ≡ ok tt
unfolding validate
validate_complete p v = ground (
  arith,
  validate_images_iff p.images,
  validate_profiles_iff p.images p.profiles,
  validate_rest_iff p,
)

-- `Validate` accepts a policy exactly when it is valid: the version is 1; every image has a name, a
-- known egress mode, a pool that is not negative and no pool beside a proxied egress; no image
-- name stands twice; every profile names an image, one of the list if there is one, and a known
-- egress mode; and the default egress mode and the network mode are known.
pub validate-IsValid : (p : Policy) → (validate p ≡ ok tt) ↔ IsValid p
validate-IsValid p = (validate_sound p, validate_complete p)
