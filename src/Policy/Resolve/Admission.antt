-- ===== src/Policy/Resolve/Admission.antt =====
-- Which requests `Resolve` admits, and what it keeps out.
use kotakpasir.Base.{
  ◌≡◌, ◌≢◌, ◌⊎◌, refl, inl, inr, Bool, true, false, not, ◌&&◌, Option, none, some, List, [], ◌∷◌,
  String, string_eq, contains, All, Error, is_error, ok, err, arith, ◌↔◌, Result-cases, ◌∙◌,
}
use kotakpasir.Base.Dict.{Dict, lookup}
use kotakpasir.Policy.{
  Policy, Egress, Image, Profile, Request, Resolved, find_image, policy_violation,
}
use kotakpasir.Policy.Validate.{validate}
use kotakpasir.Policy.Validate.Laws.{
  IsMode, HasMode, IsValid, IsProfile, IsImage, names, validate-IsValid,
}
use kotakpasir.Policy.Resolve.{keep_allowed, apply_global_deny, override_egress, resolve}
use kotakpasir.Policy.Resolve.Precedence.{
  section, chosen_profile, chosen_image, chosen_egress, image_entry, resolve-IsMerge,
}

contains-keep_allowed :
    (hosts deny : List String) (h : String)
    → contains (keep_allowed hosts deny) h ≡ (contains hosts h && not (contains deny h))
unfolding keep_allowed
contains-keep_allowed [] deny h = refl
contains-keep_allowed (x ∷ hosts) deny h = ground (arith, contains-keep_allowed hosts deny h)

and_true : (b : Bool) → b ≡ (b && true)
and_true true = refl
and_true false = refl

-- A host is left by `applyGlobalDeny` exactly when it was listed and is not denied.
pub contains-apply_global_deny :
    (hosts deny : List String) (h : String)
    → contains (apply_global_deny hosts deny) h ≡ (contains hosts h && not (contains deny h))
unfolding apply_global_deny
contains-apply_global_deny [] deny h = refl
contains-apply_global_deny (x ∷ hosts) [] h = and_true _
contains-apply_global_deny (x ∷ hosts) (d ∷ deny) h = contains-keep_allowed (x ∷ hosts) (d ∷ deny) h

-- The conditions on a request.
pub record IsAdmitted (p : Policy) (req : Request) : Type 0 where
  pub profile : (req.profile ≡ "") ⊎ (lookup req.profile p.profiles ≢ none)
  pub image : chosen_image p req ≢ ""
  pub listed : (p.images ≡ []) ⊎ (image_entry p req ≢ none)

resolve_sound :
    (p : Policy) (req : Request) (out : Resolved) → resolve p req ≡ ok out → IsAdmitted p req
unfolding resolve
resolve_sound p req out h = ground arith

resolve_refused :
    (p : Policy) (req : Request) (e : Error)
    → resolve p req ≡ err e
    → (is_error e policy_violation ≡ true) × (¬ IsAdmitted p req)
unfolding resolve is_error
resolve_refused p req e h = ground arith

-- `Resolve` succeeds on the requests that meet the conditions: the profile, if one is named,
-- exists; an image is given by the request or the profile; and it is listed, if any images are. On
-- every other request it fails, and its error is `ErrPolicyViolation` for `errors.Is`.
pub resolve_total :
    (p : Policy) (req : Request)
    → (IsAdmitted p req × ((out : Resolved) × (resolve p req ≡ ok out)))
      ⊎ ((¬ IsAdmitted p req)
          × ((e : Error) × (resolve p req ≡ err e) × (is_error e policy_violation ≡ true)))
resolve_total p req = elim (Result-cases (resolve p req)) [
  | inl (out, h) ↦ inl (resolve_sound p req out h, (out, h))
  | inr (e, h) ↦ let (marked, refused) = resolve_refused p req e h in inr (refused, (e, h, marked))
]

contains-find_image :
    (name : String) (imgs : List Image)
    → (find_image name imgs ≢ none) ↔ (contains (names imgs) name ≡ true)
unfolding find_image
contains-find_image name [] = ground arith
contains-find_image name (img ∷ imgs) = ground (arith, contains-find_image name imgs)

keep_allowed-All :
    (hosts deny : List String) → All (λ h. contains deny h ≡ false) (keep_allowed hosts deny)
unfolding keep_allowed
keep_allowed-All [] deny = tt
keep_allowed-All (h ∷ hosts) deny = ground (arith, keep_allowed-All hosts deny)

All-nil : (hosts : List String) → All (λ h. contains [] h ≡ false) hosts
All-nil [] = tt
All-nil (h ∷ hosts) = (refl, All-nil hosts)

apply_global_deny-All :
    (hosts deny : List String) → All (λ h. contains deny h ≡ false) (apply_global_deny hosts deny)
unfolding apply_global_deny
apply_global_deny-All [] deny = tt
apply_global_deny-All (h ∷ hosts) [] = All-nil (h ∷ hosts)
apply_global_deny-All (h ∷ hosts) (d ∷ deny) = keep_allowed-All (h ∷ hosts) (d ∷ deny)

-- What `Resolve` returns has an image, which is on the list of images unless that is empty, and no
-- host of the global deny list, whatever the request, the profile and the image entry say.
pub resolve_confined :
    (p : Policy) (req : Request) (out : Resolved)
    → resolve p req ≡ ok out
    → (out.image ≢ "")
      × ((p.images ≡ []) ⊎ (contains (names p.images) out.image ≡ true))
      × All (λ h. contains p.egress.global_deny h ≡ false) out.egress.hosts
resolve_confined p req out h =
    let m = resolve-IsMerge p req out h in
    let a = resolve_sound p req out h in
    (
      rw m.image a.image,
      rw m.image (ground (arith, a.listed, contains-find_image (chosen_image p req) p.images)),
      rw m.hosts (apply_global_deny-All (chosen_egress p req).hosts p.egress.global_deny),
    )

lookup-All :
    (images : List Image) (profiles : Dict Profile) (name : String) (prof : Profile)
    → All (IsProfile images) profiles
    → lookup name profiles ≡ some prof
    → IsProfile images (name, prof)
unfolding lookup
lookup-All images [] name prof a h = cc
lookup-All images ((j, w) ∷ profiles) name prof (w_ok, a) h =
    ground (arith, lookup-All images profiles name prof a)

find_image-All :
    (imgs : List Image) (name : String) (img : Image)
    → All IsImage imgs
    → find_image name imgs ≡ some img
    → IsImage img
unfolding find_image
find_image-All [] name img a h = cc
find_image-All (x ∷ imgs) name img (x_ok, a) h = ground (arith, find_image-All imgs name img a)

chosen_image_of_profile :
    (p : Policy) (req : Request) (prof : Profile)
    → req.profile ≢ ""
    → req.image ≡ ""
    → lookup req.profile p.profiles ≡ some prof
    → chosen_image p req ≡ prof.image
chosen_image_of_profile p req prof h i l = ground arith

override-IsMode :
    (o : Option Egress) (field : Egress)
    → HasMode o
    → IsMode field.mode
    → IsMode (override_egress o field).mode
override-IsMode none field h k = k
override-IsMode (some e) field h k = h

chosen_egress-IsMode : (p : Policy) (req : Request) → IsValid p → IsMode (chosen_egress p req).mode
chosen_egress-IsMode p req v =
    override-IsMode (section (λ i. i.egress) (image_entry p req)) _
      (entry_mode (image_entry p req) refl)
      (override-IsMode (section (λ f. f.egress) (chosen_profile p req)) _
        (profile_mode (chosen_profile p req) refl) v.default_mode)
  where
    entry_mode : (o : Option Image) → image_entry p req ≡ o → HasMode (section (λ i. i.egress) o)
    entry_mode none e = tt
    entry_mode (some img) e = (find_image-All p.images (chosen_image p req) img v.images e).mode

    profile_mode :
        (o : Option Profile) → chosen_profile p req ≡ o → HasMode (section (λ f. f.egress) o)
    profile_mode none e = tt
    profile_mode (some prof) e =
        (lookup-All p.images p.profiles req.profile prof v.profiles (ground arith)).mode

-- Under a policy that `Validate` accepts, a request that names an existing profile and no image of
-- its own is resolved, to that profile's image.
pub resolve_profile :
    (p : Policy) (req : Request) (prof : Profile)
    → validate p ≡ ok tt
    → req.profile ≢ ""
    → req.image ≡ ""
    → lookup req.profile p.profiles ≡ some prof
    → (out : Resolved) × (resolve p req ≡ ok out) × (out.image ≡ prof.image)
resolve_profile p req prof v h i l =
    let valid = (validate-IsValid p).0 v in
    let entry = lookup-All p.images p.profiles req.profile prof valid.profiles l in
    elim (resolve_total p req) [
      | inl (a, (out, e)) ↦
          (out, e, (resolve-IsMerge p req out e).image ∙ chosen_image_of_profile p req prof h i l)
      | inr (refused, r) ↦ absurd (
          refused (record {
            profile = inr (ground arith);
            image = rw (chosen_image_of_profile p req prof h i l) entry.imaged;
            listed =
                rw (chosen_image_of_profile p req prof h i l)
                  (ground (arith, entry.listed, contains-find_image prof.image p.images));
          }))
    ]

-- Under a policy that `Validate` accepts, the egress mode of a resolved request is one that the
-- runtime knows.
pub resolve-IsMode :
    (p : Policy) (req : Request) (out : Resolved)
    → validate p ≡ ok tt
    → resolve p req ≡ ok out
    → IsMode out.egress.mode
resolve-IsMode p req out v h =
    rw (resolve-IsMerge p req out h).mode (chosen_egress-IsMode p req ((validate-IsValid p).0 v))
