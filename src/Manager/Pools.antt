-- ===== src/Manager/Pools.antt =====
-- internal/sandbox/manager.go: which pools a policy asks for, and which requests they may serve.
pub mod Matching
use kotakpasir.Base.{
  Bool, true, false, not, ◌&&◌, ◌||◌, Option, none, some, List, [], ◌∷◌, String, if◌then◌else◌,
  ◌==◌, string_eq,
}
use kotakpasir.Base.Dict.{Dict, lookup, insert}
use kotakpasir.Base.Int.{ℤ, pos, is_pos, or_int, int_eq}
use kotakpasir.Policy.{Policy, Image, Resolved, egress_none, needs_proxy?, find_image}
use kotakpasir.Pool
use kotakpasir.Pool.{Pool}
use kotakpasir.Runtime.{Runtime, Spec, spec_eq}
use kotakpasir.Sandbox.{Store}
use kotakpasir.Manager.{Manager}

-- `poolSpecFor`
unfoldable pub pool_spec_for : Policy → Image → Spec
pool_spec_for pol img = record {
  name = "";
  image = img.name;
  cmd = [];
  env = [];
  cpus = or_int img.cpus pol.defaults.cpus;
  memory_mb = or_int img.memory_mb pol.defaults.memory_mb;
  pids_limit = pol.defaults.pids_limit;
  user = pol.defaults.user;
  read_only = pol.defaults.read_only;
  network_mode = pol.defaults.network_mode;
  runtime_name = pol.defaults.runtime;
  egress = record { mode = ""; hosts = [] };
  labels = [];
  ttl = pos 0;
}

-- `if img.Pool <= 0 { continue }` and the test of the egress mode behind it.
abbrev pub is_pooled : Image → Bool
is_pooled img = is_pos img.pool && not (needs_proxy? img.egress)

-- The loop of `buildPools`.
unfoldable pub build_onto : Policy → List Image → Dict Pool → Dict Pool
build_onto pol [] out = out
build_onto pol (img ∷ imgs) out = build_onto pol imgs (
    if is_pooled img
    then insert img.name
        (Pool.new (record { image = img.name; target = img.pool }) (pool_spec_for pol img)) out
    else out)

-- `buildPools`
unfoldable pub build_pools : Policy → Dict Pool
unfolding build_onto
build_pools pol = build_onto pol pol.images []

-- `samePoolSpec`
unfoldable pub same_pool_spec : Pool → Pool → Bool
same_pool_spec a b =
    a.cfg.image == b.cfg.image && (a.cfg.target == b.cfg.target && a.spec == b.spec)

-- `poolMatchesResolved`
unfoldable pub pool_matches_resolved : Policy → Resolved → Bool
pool_matches_resolved pol resolved =
    if not (resolved.egress.mode == "") && not (resolved.egress.mode == egress_none)
    then false
    else elim (find_image resolved.image pol.images) [
      | none ↦ false
      | some img ↦
          (resolved.cpus == or_int img.cpus pol.defaults.cpus)
          && (resolved.memory_mb == or_int img.memory_mb pol.defaults.memory_mb)
    ]

module _ {R : Runtime} {S : Store} where
  -- `tryClaim`, on the snapshot that the manager's own policy and pools are.
  unfoldable pub try_claim : Resolved → Manager R S → Option String × Manager R S
  try_claim resolved m = elim (lookup resolved.image m.pools) [
    | none ↦ (none, m)
    | some p ↦
        let (id, p') = Pool.get p in
        if pool_matches_resolved m.policy resolved
        then (id, record m { pools = insert resolved.image p' m.pools })
        else (none, m)
  ]
