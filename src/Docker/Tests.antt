-- ===== src/Docker/Tests.antt =====
-- A daemon that cannot pull, and a creation with an egress allowlist on it.
use kotakpasir.Base.{
  ℕ, suc, ◌≡◌, ◌≢◌, ne_of_==, refl, ◌⊎◌, true, none, [], ◌∷◌, String, string_eq, message, Error, ok,
  err,
}
use kotakpasir.Base.Int.{pos}
use kotakpasir.Runtime.{Spec, Handle}
use kotakpasir.Runtime.Counting.{name_of}
use kotakpasir.Docker.{Client, ContainerSpec, NetworkSpec, Inspected}
use kotakpasir.Base.Dict.{lookup}
use kotakpasir.Docker.Provision.{Docker, create, remove, sandbox_id}
use kotakpasir.Docker.Provision.Removal.{remove_group}
use kotakpasir.Docker.Provision.Rollback.{IsBalanced, IsLaunched, IsGroup, create_outcome}

abbrev offline : Client
offline = record {
  State = ℕ;
  is_not_found = λ (e : Error). true;
  container_create = λ (spec : ContainerSpec) (n : ℕ). (ok (name_of n), suc n);
  container_start = λ (id : String) (n : ℕ). (ok tt, n);
  container_remove = λ (id : String) (n : ℕ). (ok tt, n);
  container_inspect = λ (id : String) (n : ℕ). err (message "no such container" []);
  container_list = λ (label text : String) (n : ℕ). ok [];
  network_create = λ (spec : NetworkSpec) (n : ℕ). (ok tt, n);
  network_remove = λ (name : String) (n : ℕ). (ok tt, n);
  network_connect = λ (network id : String) (n : ℕ). (ok tt, n);
  network_list = λ (label text : String) (n : ℕ). ok [];
  image_inspect = λ (ref : String) (n : ℕ). err (message "no such image" []);
  image_pull = λ (ref : String) (n : ℕ). (err (message "no route to host" []), n);
}

abbrev idle_daemon : Docker offline
idle_daemon = record {
  world = 0;
  made = [];
  dropped = [];
  networks_made = [];
  networks_dropped = [];
}

abbrev proxied : Spec
proxied = record {
  name = "s1";
  image = "python:3.12";
  cmd = [];
  env = [];
  cpus = pos 1000000000;
  memory_mb = pos 512;
  pids_limit = pos 256;
  user = "1000:1000";
  read_only = true;
  network_mode = "none";
  runtime_name = "";
  egress = record { mode = "allowlist"; hosts = "pypi.org" ∷ [] };
  labels = ("kotakpasir.sandbox-id", "s1") ∷ [];
  ttl = pos 0;
}

c-nonempty : ◌≢◌ {A = String} "c" ""
unfolding string_eq
c-nonempty = ne_of_== "c" "" refl

create_outcome_example :
    let r = create "" proxied idle_daemon in
    ((e : Error) × (r.0 ≡ err e) × ((x : String) → (x ≡ "") ⊎ IsBalanced x idle_daemon r.1))
    ⊎ ((h : Handle) × (network : String) × (proxy : String) × (r.0 ≡ ok h)
        × ((x : String) → (x ≡ "") ⊎ IsLaunched network proxy h.id x idle_daemon r.1)
        × IsGroup proxied "s1" network proxy r.1)
unfolding string_eq lookup
create_outcome_example = create_outcome "" proxied idle_daemon

abbrev online : Client
online = record offline {
  container_inspect =
      λ (id : String) (n : ℕ). ok (record { labels = proxied.labels; addresses = none });
  container_list = λ (label text : String) (n : ℕ). ok ("p1" ∷ []);
  network_list = λ (label text : String) (n : ℕ). ok ("kp-net-s1" ∷ []);
}

abbrev busy_daemon : Docker online
busy_daemon = record {
  world = 2;
  made = "c1" ∷ "p1" ∷ [];
  dropped = [];
  networks_made = "kp-net-s1" ∷ [];
  networks_dropped = [];
}

abbrev seen_labels : Inspected
seen_labels = record { labels = proxied.labels; addresses = none }

proxied_grouped : sandbox_id seen_labels.labels ≢ ""
unfolding lookup string_eq
proxied_grouped = ne_of_== (sandbox_id seen_labels.labels) "" refl

remove_group_example :
    ((remove "c1" busy_daemon).0 ≡ ok tt)
    × ((remove "c1" busy_daemon).1.dropped ≡ "p1" ∷ "c1" ∷ [])
    × ((remove "c1" busy_daemon).1.networks_dropped ≡ "kp-net-s1" ∷ [])
remove_group_example =
    remove_group "c1" busy_daemon seen_labels ("p1" ∷ []) ("kp-net-s1" ∷ []) refl proxied_grouped
      refl refl
