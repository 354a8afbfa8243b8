-- ===== src/Manager/Create.antt =====
-- internal/sandbox/manager.go: `Create`.
pub mod Entry
pub mod Origin
pub mod Outcome
use kotakpasir.Base.{
  ℕ, ◌+◌, Option, none, some, List, [], String, if◌then◌else◌, wrap, Error, Result, ok, err,
}
use kotakpasir.Base.Dict.{Dict, insert, copy}
use kotakpasir.Base.Int.{ℤ, is_pos, to_ℕ}
use kotakpasir.Base.State.{Method, return, ◌>>=◌, ◌>>◌, modify}
use kotakpasir.Policy.{Request, Resolved}
use kotakpasir.Policy.Resolve.{resolve}
use kotakpasir.Runtime.{Runtime, Spec}
use kotakpasir.Sandbox.{Sandbox, Store, CreateOptions, created, running, error}
use kotakpasir.Manager.{
  Manager, Event, sandbox_created, pool_hit, pool_miss, record_event, on_store, refresh_active,
}
use kotakpasir.Manager.Pools.{try_claim}

-- `mergeLabels`
unfoldable pub merge_labels : Dict String → String → Dict String
merge_labels labels id =
    insert "kotakpasir.managed" "true" (insert "kotakpasir.sandbox-id" id (copy [] labels))

abbrev pub request_of : CreateOptions → Request
request_of opts = record {
  profile = opts.profile;
  image = opts.image;
  cmd = opts.cmd;
  env = opts.env;
  cpus = opts.cpus;
  memory_mb = opts.memory_mb;
  ttl = opts.ttl;
  name = opts.name;
  labels = opts.labels;
}

-- The sandbox record before a container is found for it.
unfoldable pub new_sandbox : Resolved → String → ℕ → Sandbox
new_sandbox r id now = record {
  id = id;
  name = r.name;
  image = r.image;
  runtime_id = "";
  state = created;
  cpus = r.cpus;
  memory_mb = r.memory_mb;
  env = r.env;
  labels = r.labels;
  created_at = now;
  expires_at = if is_pos r.ttl then some (now + to_ℕ r.ttl) else none;
}

-- The runtime's spec of a cold start.
unfoldable pub spec_of : Resolved → String → Spec
spec_of r id = record {
  name = id;
  image = r.image;
  cmd = r.cmd;
  env = r.env;
  cpus = r.cpus;
  memory_mb = r.memory_mb;
  pids_limit = r.pids_limit;
  user = r.user;
  read_only = r.read_only;
  network_mode = r.network_mode;
  runtime_name = r.runtime_name;
  egress = record { mode = r.egress.mode; hosts = r.egress.hosts };
  labels = merge_labels r.labels id;
  ttl = r.ttl;
}

module _ {R : Runtime} {S : Store} where
  -- `store.Put` with the context that `Create` gives its error.
  store_put : Sandbox → Method (Manager R S) (Unit {0})
  store_put sb m =
      let (stored, db) = S.put sb m.db in
      (elim stored [ ok _ ↦ ok tt | err e ↦ err (wrap "store put: %w" [] e) ], record m { db = db })

  -- What both ways of creation do with the running sandbox.
  unfoldable pub enter : Event → String → Sandbox → Method (Manager R S) Sandbox
  unfolding store_put
  enter source profile sb = do
    store_put sb
    modify (record_event source)
    modify (record_event (sandbox_created sb.image profile "success"))
    modify refresh_active
    return sb

  -- The part behind `tryClaim`, when no warm container was found.
  cold_start : CreateOptions → Resolved → Sandbox → Method (Manager R S) Sandbox
  unfolding enter
  cold_start opts r sb m =
      let (handle, world) = R.create (spec_of r sb.id) m.world in
      let m' = record m { world = world } in
      elim handle [
        | err e ↦
            let (_, db) = S.put (record sb { state = error }) m.db in
            (
              err (wrap "runtime create: %w" [] e),
              record_event (sandbox_created r.image opts.profile "runtime_error")
                  (record m' { db = db }),
            )
        | ok h ↦
            enter (pool_miss r.image) opts.profile
              (record sb { runtime_id = h.id; state = running }) m'
      ]

  -- The part behind `Resolve`.
  pub provide : CreateOptions → Resolved → Sandbox → Method (Manager R S) Sandbox
  unfolding cold_start enter
  provide opts r sb m =
      let (claimed, m') = try_claim r m in
      elim claimed [
        | some id ↦
            enter (pool_hit r.image) opts.profile (record sb { runtime_id = id; state = running })
              m'
        | none ↦ cold_start opts r sb m'
      ]

  -- `Create`; `id` is the new UUID and `now` the time.
  unfoldable pub create : CreateOptions → String → ℕ → Method (Manager R S) Sandbox
  unfolding provide
  create opts id now m = elim (resolve m.policy (request_of opts)) [
    | err e ↦ (err e, record_event (sandbox_created opts.image opts.profile "policy_denied") m)
    | ok r ↦ provide opts r (new_sandbox r id now) m
  ]
