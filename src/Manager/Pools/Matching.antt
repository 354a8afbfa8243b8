-- ===== src/Manager/Pools/Matching.antt =====
-- Which pools exist, and which requests they serve.
use kotakpasir.Base.{
  zero, suc, ◌≡◌, ◌≢◌, refl, ap, ◌∙◌, ◌↔◌, ◌⊎◌, inl, inr, true, false, Option, none, some, List, [],
  ◌∷◌, String, if◌then◌else◌, string_eq, contains, IsNodup, ok, arith, Option-cases,
}
use kotakpasir.Base.Dict.{Dict, lookup, insert, lookup-insert}
use kotakpasir.Base.Int.{ℤ, pos, negsuc, is_neg, or_int, int_eq}
use kotakpasir.Policy.{Policy, Image, Request, Resolved, egress_none, needs_proxy?, find_image}
use kotakpasir.Policy.Validate.Laws.{names}
use kotakpasir.Policy.Resolve.{resolve, override_egress}
use kotakpasir.Policy.Resolve.Precedence.{
  first_pos, chosen_image, chosen_profile, image_entry, resolve-IsMerge,
}
use kotakpasir.Pool
use kotakpasir.Pool.{Pool, Config, get}
use kotakpasir.Runtime.{Runtime}
use kotakpasir.Sandbox.{Store}
use kotakpasir.Manager.{Manager}
use kotakpasir.Manager.Pools.{
  pool_spec_for, is_pooled, build_onto, build_pools, pool_matches_resolved, try_claim,
}

-- The pool that an image entry asks for, over what an earlier entry left.
abbrev pub wanted : Policy → Option Image → Option Pool → Option Pool
wanted pol none old = old
wanted pol (some img) old =
    if is_pooled img
    then some (Pool.new (record { image = img.name; target = img.pool }) (pool_spec_for pol img))
    else old

find_image_absent :
    (x : String) (imgs : List Image) → contains (names imgs) x ≡ false → find_image x imgs ≡ none
unfolding find_image
find_image_absent x [] h = refl
find_image_absent x (img ∷ imgs) h = ground (arith, find_image_absent x imgs)

lookup-build_onto :
    (pol : Policy) (imgs : List Image) (out : Dict Pool) (x : String)
    → IsNodup (names imgs)
    → lookup x (build_onto pol imgs out) ≡ wanted pol (find_image x imgs) (lookup x out)
unfolding build_onto find_image
lookup-build_onto pol [] out x u = refl
lookup-build_onto pol (img ∷ imgs) out x (fresh, u) =
    let p = Pool.new (record { image = img.name; target = img.pool }) (pool_spec_for pol img) in
    lookup-build_onto pol imgs (if is_pooled img then insert img.name p out else out) x u
    ∙ ground (arith, lookup-insert img.name x p out, find_image_absent img.name imgs fresh)

-- Where no image name stands twice, the pools of a policy are those of the image entries that ask
-- for one: under the name of an entry with a positive pool and no proxied egress there is a new pool
-- of that size with the entry's spec, and under every other name there is none.
pub lookup-build_pools :
    (pol : Policy) (x : String)
    → IsNodup (names pol.images)
    → lookup x (build_pools pol) ≡ wanted pol (find_image x pol.images) none
unfolding build_pools lookup
lookup-build_pools pol x u = lookup-build_onto pol pol.images [] x u

-- The request needs no egress proxy, and has the CPUs and the memory of the containers that are warmed for
-- its image entry.
abbrev pub IsMatch : Policy → Resolved → Type 0
IsMatch pol r =
    ((r.egress.mode ≡ "") ⊎ (r.egress.mode ≡ egress_none))
    × ((img : Image) × (find_image r.image pol.images ≡ some img)
        × (r.cpus ≡ (pool_spec_for pol img).cpus)
        × (r.memory_mb ≡ (pool_spec_for pol img).memory_mb))

pool_matches_resolved_iff :
    (pol : Policy) (r : Resolved) → (pool_matches_resolved pol r ≡ true) ↔ IsMatch pol r
unfolding pool_matches_resolved pool_spec_for
pool_matches_resolved_iff pol r = elim (Option-cases (find_image r.image pol.images)) [
  | inl e ↦ ground (arith, e)
  | inr (img, e) ↦ (λ h. (ground arith, (img, e, ground arith, ground arith)), λ h. ground arith)
]

-- The command, the environment, the TTL, the name, the labels and the other fields of a request do
-- not count: requests that agree on image, egress mode, CPUs and memory get the same warm container.
pub try_claim_ignores :
    (R : Runtime) (S : Store) (m : Manager R S) (r q : Resolved)
    → r.image ≡ q.image
    → r.egress.mode ≡ q.egress.mode
    → r.cpus ≡ q.cpus
    → r.memory_mb ≡ q.memory_mb
    → try_claim r m ≡ try_claim q m
unfolding try_claim pool_matches_resolved
try_claim_ignores R S m r q image mode cpus memory = rw (image, mode, cpus, memory)

-- What a claim of `id` from the pool of `image` did.
pub record IsClaim {R : Runtime} {S : Store} (image id : String) (m n : Manager R S) : Type 0 where
  pub pool : Pool
  pub rest : List String
  pub found : lookup image m.pools ≡ some pool
  pub open_pool : pool.closed ≡ false
  pub last : pool.avail ≡ id ∷ rest
  pub left :
      n ≡ record m { pools = insert image (record pool { avail = rest; signal = true }) m.pools }

try_claim_found :
    (R : Runtime) (S : Store) (m : Manager R S) (r : Resolved) (id : String) (p : Pool)
    (avail : List String)
    → lookup r.image m.pools ≡ some p
    → p.avail ≡ avail
    → (try_claim r m).0 ≡ some id
    → (pool_matches_resolved m.policy r ≡ true) × IsClaim r.image id m (try_claim r m).1
unfolding try_claim get
try_claim_found R S m r id p [] e a h = absurd (ground arith)
try_claim_found R S m r id p (x ∷ rest) e a h = (
  ground arith,
  record {
    pool = p;
    rest = rest;
    found = e;
    open_pool = ground arith;
    last = ground arith;
    left = ground arith;
  },
)

-- A claim succeeds only for a matching request. It takes the container at the end of the open pool
-- of the request's image, which keeps the others; every other pool and the rest of the manager are
-- as before.
pub try_claim-IsClaim :
    (R : Runtime) (S : Store) (m : Manager R S) (r : Resolved) (id : String)
    → (try_claim r m).0 ≡ some id
    → (pool_matches_resolved m.policy r ≡ true) × IsClaim r.image id m (try_claim r m).1
try_claim-IsClaim R S m r id h = looked_up (lookup r.image m.pools) refl
  where
    looked_up :
        (o : Option Pool)
        → lookup r.image m.pools ≡ o
        → (pool_matches_resolved m.policy r ≡ true) × IsClaim r.image id m (try_claim r m).1
    looked_up none e = absurd (unfold try_claim in ground arith)
    looked_up (some p) e = try_claim_found R S m r id p p.avail e refl h

try_claim_back :
    (R : Runtime) (S : Store) (m : Manager R S) (r : Resolved) (id : String)
    → pool_matches_resolved m.policy r ≡ true
    → IsClaim r.image id m (try_claim r m).1
    → (try_claim r m).0 ≡ some id
unfolding try_claim get
try_claim_back R S m r id h c = ground (arith, h, c.found, c.open_pool, c.last)

-- A resolved request is served from a pool, by the container `id`, exactly when it needs no egress proxy,
-- its CPUs and memory are those of the containers that are warmed for its image entry, and the pool of
-- its image is there, open and has `id` at the end. The pool then keeps its other containers, and every
-- other pool and the rest of the manager are as before.
pub try_claim_iff :
    (R : Runtime) (S : Store) (m : Manager R S) (r : Resolved) (id : String)
    → ((try_claim r m).0 ≡ some id) ↔ (IsMatch m.policy r × IsClaim r.image id m (try_claim r m).1)
try_claim_iff R S m r id = (
  λ h.
      let (matches, claim) = try_claim-IsClaim R S m r id h in
      ((pool_matches_resolved_iff m.policy r).0 matches, claim),
  λ (matches, claim).
      try_claim_back R S m r id ((pool_matches_resolved_iff m.policy r).1 matches) claim,
)

first_pos-or_int : (c d : ℤ) → is_neg c ≡ false → first_pos (pos 0 ∷ c ∷ pos 0 ∷ []) d ≡ or_int c d
first_pos-or_int (pos zero) d h = refl
first_pos-or_int (pos (suc n)) d h = refl
first_pos-or_int (negsuc n) d h = cc

-- A request for a pooled image that sets no profile, CPUs or memory matches its pool, where the
-- entry's own CPUs and memory are not negative and the entry or the policy asks for no proxy.
pub default_request_matches :
    (pol : Policy) (req : Request) (img : Image) (out : Resolved)
    → find_image req.image pol.images ≡ some img
    → req.profile ≡ ""
    → req.image ≢ ""
    → req.cpus ≡ pos 0
    → req.memory_mb ≡ pos 0
    → is_neg img.cpus ≡ false
    → is_neg img.memory_mb ≡ false
    → needs_proxy? (some (override_egress img.egress pol.egress.default)) ≡ false
    → resolve pol req ≡ ok out
    → pool_matches_resolved pol out ≡ true
default_request_matches pol req img out f pr im c mem nc nm e h =
    let merged = resolve-IsMerge pol req out h in
    let image : chosen_image pol req ≡ req.image = ground arith in
    let entry : image_entry pol req ≡ some img = ap (λ x. find_image x pol.images) image ∙ f in
    let no_profile : chosen_profile pol req ≡ none = ground arith in
    let cpus : out.cpus ≡ (pool_spec_for pol img).cpus =
      unfold pool_spec_for in
      merged.cpus ∙ rw (c, entry, no_profile) (first_pos-or_int img.cpus pol.defaults.cpus nc) in
    let memory : out.memory_mb ≡ (pool_spec_for pol img).memory_mb =
      unfold pool_spec_for in
      merged.memory_mb
      ∙ rw (mem, entry, no_profile) (first_pos-or_int img.memory_mb pol.defaults.memory_mb nm) in
    let mode : out.egress.mode ≡ (override_egress img.egress pol.egress.default).mode =
      merged.mode ∙ rw (entry, no_profile) in
    (pool_matches_resolved_iff pol out).1 (
      rw mode (ground arith),
      (img, ap (λ x. find_image x pol.images) (merged.image ∙ image) ∙ f, cpus, memory),
    )
