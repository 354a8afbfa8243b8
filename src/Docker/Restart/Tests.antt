-- ===== src/Docker/Restart/Tests.antt =====
-- A daemon that holds the labels of its containers, and a manager on it with one warm container.
use kotakpasir.Base.{
  ℕ, Bool, ◌&&◌, ◌≡◌, ==_refl, refl, true, false, none, some, List, [], ◌∷◌, String, if◌then◌else◌,
  string_eq, contains, Error, Result, ok, err, message, arith,
}
use kotakpasir.Base.Dict.{Dict, lookup, erase, keys, lookup-erase}
use kotakpasir.Base.Int.{pos, int_eq}
use kotakpasir.Policy.{Resolved, find_image}
use kotakpasir.Policy.Resolve.{resolve, apply_global_deny}
use kotakpasir.Policy.Tests.{alpine, team_policy}
use kotakpasir.Pool
use kotakpasir.Pool.{Pool, Config, label_role, role_pool_warm}
use kotakpasir.Runtime.{Spec, ExecSpec}
use kotakpasir.Sandbox.{Sandbox, CreateOptions, running}
use kotakpasir.Store.{scan, to_row, put}
use kotakpasir.Store.Tests.{two, two-IsNodup}
use kotakpasir.Manager.{Manager}
use kotakpasir.Manager.Create.{create, request_of, new_sandbox}
use kotakpasir.Manager.Create.Entry.{launched}
use kotakpasir.Manager.Pools.{pool_spec_for, pool_matches_resolved, try_claim}
use kotakpasir.Manager.Tests.{disk, disk-Contract, alpine_resolved}
use kotakpasir.Docker.{Client, ContainerSpec, NetworkSpec}
use kotakpasir.Docker.Exec.{ExecClient}
use kotakpasir.Docker.Backend.{backend}
use kotakpasir.Docker.Provision.{Docker, clean_pool_orphans}
use kotakpasir.Docker.Restart.{IsDaemon, has_label, clean_pool_orphans_outcome, claimed_lost}

-- Whether a container is there and its label has the text.
abbrev is_labelled : String → String → Dict (Dict String) → String → Bool
is_labelled label text w id = elim (lookup id w) [
  | none ↦ false
  | some labels ↦ has_label label text labels
]

-- Of the containers in a part of the daemon's map, those whose label has the text.
with_label : String → String → Dict (Dict String) → Dict (Dict String) → List String
with_label label text w [] = []
with_label label text w ((id, _) ∷ part) =
    let rest = with_label label text w part in
    if is_labelled label text w id then id ∷ rest else rest

with_label-contains :
    (id label text : String) (w part : Dict (Dict String))
    → contains (with_label label text w part) id
      ≡ (contains (keys part) id && is_labelled label text w id)
unfolding with_label
with_label-contains id label text w [] = refl
with_label-contains id label text w ((j, _) ∷ part) =
    ground (arith, with_label-contains id label text w part)

keys-lookup :
    (id : String) (labels : Dict String) (w : Dict (Dict String))
    → lookup id w ≡ some labels
    → contains (keys w) id ≡ true
unfolding lookup
keys-lookup id labels [] h = cc h
keys-lookup id labels ((j, _) ∷ w) h = ground (arith, h, keys-lookup id labels w)

abbrev labelled : Client
labelled = record {
  State = Dict (Dict String);
  is_not_found = λ (e : Error). true;
  container_create =
      λ (spec : ContainerSpec) (w : Dict (Dict String)). (ok "c", ("c", spec.labels) ∷ w);
  container_start = λ (id : String) (w : Dict (Dict String)). (ok tt, w);
  container_remove = λ (id : String) (w : Dict (Dict String)). (ok tt, erase id w);
  container_inspect =
      λ (id : String) (w : Dict (Dict String)). err (message "no such container" []);
  container_list = λ (label text : String) (w : Dict (Dict String)). ok (with_label label text w w);
  network_create = λ (spec : NetworkSpec) (w : Dict (Dict String)). (ok tt, w);
  network_remove = λ (name : String) (w : Dict (Dict String)). (ok tt, w);
  network_connect = λ (network id : String) (w : Dict (Dict String)). (ok tt, w);
  network_list = λ (label text : String) (w : Dict (Dict String)). ok [];
  image_inspect = λ (ref : String) (w : Dict (Dict String)). ok tt;
  image_pull = λ (ref : String) (w : Dict (Dict String)). (ok tt, w);
}

abbrev labelled-IsDaemon : IsDaemon labelled
labelled-IsDaemon = record {
  labels_of = lookup;
  remove_law = λ id w h. ground (arith, lookup-erase id id w, ==_refl id);
  others_law = λ id other w h. ground (arith, h, lookup-erase id other w);
  list_law = λ id label text w found labels listed held.
      ground
        (arith, listed, held, with_label-contains id label text w w, keys-lookup id labels w held);
}

-- A daemon whose commands end at once.
abbrev idle : ExecClient
idle = record {
  State = Unit {0};
  exec_create = λ (id : String) (spec : ExecSpec) (s : Unit {0}). (ok "e", s);
  exec_attach = λ (id : String) (s : Unit {0}). (ok ([], none), s);
  exec_inspect = λ (id : String) (s : Unit {0}). ok (pos 0);
  container_stop = λ (id : String) (n : ℕ) (s : Unit {0}). (ok tt, s);
  container_state = λ (id : String) (s : Unit {0}). ok ("running", pos 0);
}

abbrev alpine_config : Config
alpine_config = record { image = alpine.name; target = alpine.pool }

abbrev alpine_spec : Spec
alpine_spec = pool_spec_for team_policy alpine

abbrev one_warm : Pool
one_warm = record (Pool.new alpine_config alpine_spec) { avail = "w1" ∷ []; refilling = true }

abbrev host : Docker labelled × Unit {0}
host = (
  record {
    world = ("w1", one_warm.spec.labels) ∷ [];
    made = [];
    dropped = [];
    networks_made = [];
    networks_dropped = [];
  },
  tt,
)

abbrev pinged : Docker labelled × Unit {0} → Result (Unit {0})
pinged s = ok tt

abbrev node : Manager (backend labelled idle "" (pos 0) pinged) disk
node = record {
  world = host;
  db = two;
  policy = team_policy;
  pools = (alpine.name, one_warm) ∷ [];
  started = true;
  metrics = [];
  log_cap = pos 4096;
  logs = [];
}

abbrev scratch : CreateOptions
scratch = record {
  name = "scratch";
  profile = "";
  image = "alpine:latest";
  cmd = [];
  env = [];
  cpus = pos 0;
  memory_mb = pos 0;
  ttl = pos 90;
  labels = [];
}

abbrev scratch_resolved : Resolved
scratch_resolved = record alpine_resolved {
  cmd = [];
  env = [];
  name = "scratch";
  labels = [];
  ttl = pos 90;
}

abbrev scratch_sandbox : Sandbox
scratch_sandbox = launched (new_sandbox scratch_resolved "new" 7) "w1"

scratch-resolve : resolve team_policy (request_of scratch) ≡ ok scratch_resolved
unfolding resolve string_eq lookup find_image apply_global_deny
scratch-resolve = refl

scratch-matches : pool_matches_resolved team_policy scratch_resolved ≡ true
unfolding pool_matches_resolved string_eq find_image int_eq
scratch-matches = refl

scratch-create : (create scratch "new" 7 node).0 ≡ ok scratch_sandbox
unfolding create string_eq resolve lookup find_image try_claim put apply_global_deny
    pool_matches_resolved int_eq Pool.get Pool.new to_row scan new_sandbox
scratch-create = refl

one_warm-lookup : lookup alpine.name node.pools ≡ some one_warm
unfolding lookup string_eq
one_warm-lookup = refl

one_warm-closed : one_warm.closed ≡ false
unfolding Pool.new
one_warm-closed = refl

w1-listed : labelled.container_list label_role role_pool_warm node.world.0.world ≡ ok ("w1" ∷ [])
unfolding with_label lookup string_eq Pool.new pool_spec_for
w1-listed = refl

w1-held :
    labelled-IsDaemon.labels_of "w1" node.world.0.world
    ≡ some (Pool.new alpine_config alpine_spec).spec.labels
unfolding lookup string_eq Pool.new
w1-held = refl

claimed_lost_example :
    let n = (create scratch "new" 7 node).1 in
    (scratch_sandbox.state ≡ running)
    × (disk-Contract.contents n.db scratch_sandbox.id
        ≡ some (
            disk-Contract.kept scratch_sandbox (disk-Contract.contents node.db scratch_sandbox.id)))
    × (labelled-IsDaemon.labels_of scratch_sandbox.runtime_id n.world.0.world
        ≡ some (Pool.new alpine_config alpine_spec).spec.labels)
    × (labelled-IsDaemon.labels_of scratch_sandbox.runtime_id (clean_pool_orphans n.world.0).1.world
        ≡ none)
claimed_lost_example =
    claimed_lost labelled-IsDaemon idle "" (pos 0) pinged disk-Contract scratch "new" 7 node
      scratch_resolved one_warm alpine_config alpine_spec "w1" [] ("w1" ∷ []) scratch_sandbox
      two-IsNodup (λ other w. refl) scratch-resolve one_warm-lookup one_warm-closed refl
      scratch-matches w1-held scratch-create w1-listed

clean_pool_orphans_outcome_example :
    ((clean_pool_orphans host.0).0 ≡ ok tt)
    × (labelled-IsDaemon.labels_of "w1" (clean_pool_orphans host.0).1.world ≡ (
        if has_label label_role role_pool_warm one_warm.spec.labels
        then none
        else some one_warm.spec.labels))
clean_pool_orphans_outcome_example =
    clean_pool_orphans_outcome labelled-IsDaemon "w1" host.0 one_warm.spec.labels ("w1" ∷ [])
      (λ other w. refl) w1-held w1-listed
