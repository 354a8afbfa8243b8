-- ===== src/Docker/Provision.antt =====
-- internal/runtime/docker/docker.go: the methods that change what the daemon holds.
-- `Docker` is the daemon's state with a journal of what this client made and asked to remove.
pub mod Rollback
pub mod Removal
use kotakpasir.Base.{
  ℕ, Bool, true, false, not, ◌&&◌, ◌||◌, Option, none, some, List, [], ◌∷◌, String, ◌<>◌,
  if◌then◌else◌, ◌==◌, string_eq, message, sentinel, wrap, Error, Result, ok, err,
}
use kotakpasir.Base.Dict.{Dict, lookup}
use kotakpasir.Runtime.{Spec, Handle, no_proxy}
use kotakpasir.Docker.{
  Client, ContainerSpec, NetworkSpec, Inspected, build_container_config, proxy_config,
  network_config, label_sandbox_id, label_role,
}

pub record Docker (C : Client) : Type 0 where
  pub world : C.State
  pub made : List String
  pub dropped : List String
  pub networks_made : List String
  pub networks_dropped : List String

-- `spec.Labels[labelSandboxID]`
abbrev pub sandbox_id : Dict String → String
sandbox_id labels = elim (lookup label_sandbox_id labels) [ none ↦ "" | some id ↦ id ]

-- The end of `ProxyAddr`.
abbrev pub bridge_address : String → Option (Dict String) → Result String
bridge_address id none = err (message "proxy %s has no network settings" (id ∷ []))
bridge_address id (some networks) =
    let address : String = elim (lookup "bridge" networks) [ none ↦ "" | some a ↦ a ] in
    if address == ""
    then err (message "proxy %s not attached to bridge yet" (id ∷ []))
    else ok (address <> ":8080")

module _ {C : Client} where
  -- The client's calls, with the journal.
  abbrev pub create_container : ContainerSpec → Docker C → Result String × Docker C
  create_container spec d =
      let (r, w) = C.container_create spec d.world in
      elim r [
        | err e ↦ (err e, record d { world = w })
        | ok id ↦ (ok id, record d { world = w; made = id ∷ d.made })
      ]

  abbrev pub remove_container : String → Docker C → Docker C
  remove_container id d = record d {
    world = (C.container_remove id d.world).1;
    dropped = id ∷ d.dropped;
  }

  abbrev pub create_network : NetworkSpec → Docker C → Result (Unit {0}) × Docker C
  create_network spec d =
      let (r, w) = C.network_create spec d.world in
      elim r [
        | err e ↦ (err e, record d { world = w })
        | ok _ ↦ (ok tt, record d { world = w; networks_made = spec.name ∷ d.networks_made })
      ]

  abbrev pub remove_network : String → Docker C → Docker C
  remove_network name d = record d {
    world = (C.network_remove name d.world).1;
    networks_dropped = name ∷ d.networks_dropped;
  }

  -- What `maybeProvisionEgress` does once the proxy's container exists.
  start_proxy : String → String → Docker C → Result (String × String) × Docker C
  start_proxy network proxy d =
      let (started, w) = C.container_start proxy d.world in
      let (connected, v) = C.network_connect "bridge" proxy w in
      elim started [
        | err e ↦ (
          err (wrap "proxy start: %w" [] e),
          remove_network network (remove_container proxy (record d { world = w })),
        )
        | ok _ ↦ elim connected [
          | err e ↦ (
            err (wrap "proxy attach to bridge: %w" [] e),
            remove_network network (remove_container proxy (record d { world = v })),
          )
          | ok _ ↦ (ok (network, proxy), record d { world = v })
        ]
      ]

  -- What it does once the network exists.
  create_proxy : ContainerSpec → String → Docker C → Result (String × String) × Docker C
  unfolding start_proxy
  create_proxy config network d =
      let (r, d') = create_container config d in
      elim r [
        | err e ↦ (
          (if C.is_not_found e
              then err (
                  message
                    "proxy image %q not found — build with: docker build -f Dockerfile.kpproxy -t %s ."
                    (config.image ∷ config.image ∷ []))
              else err (wrap "proxy create: %w" [] e)),
          remove_network network d',
        )
        | ok proxy ↦ start_proxy network proxy d'
      ]

  -- `maybeProvisionEgress`
  unfoldable pub provision : String → String → Spec → Docker C → Result (String × String) × Docker C
  unfolding create_proxy start_proxy
  provision proxy_image id spec d =
      if spec.egress.mode == "" || spec.egress.mode == "none"
      then (ok ("", ""), d)
      else if not (spec.egress.mode == "allowlist")
      then (err (message "egress mode %q invalid" (spec.egress.mode ∷ [])), d)
      else if id == ""
      then (err (message "egress allowlist requires kotakpasir.sandbox-id label on spec" []), d)
      else (let (r, d') = create_network (network_config id) d in
          elim r [
            | err e ↦ (err (wrap "network create: %w" [] e), d')
            | ok _ ↦
                create_proxy (proxy_config proxy_image id spec.egress.hosts) ("kp-net-" <> id) d'
          ])

  -- The closure `rollback` of `Create`.
  abbrev pub rollback : String → String → Docker C → Docker C
  rollback network proxy d =
      let d' = if proxy == "" then d else remove_container proxy d in
      if network == "" then d' else remove_network network d'

  -- The creation in `Create`, with the pull of a missing image and the second attempt.
  pull_and_create : ContainerSpec → Docker C → Result String × Docker C
  pull_and_create config d =
      let (r, d') = create_container config d in
      elim r [
        | ok id ↦ (ok id, d')
        | err e ↦
            let (pulled, w) = C.image_pull config.image d'.world in
            let (again, d'') = create_container config (record d' { world = w }) in
            if not (C.is_not_found e)
            then (err (wrap "container create: %w" [] e), d')
            else (elim pulled [
              | err x ↦
                  (err (wrap "pull image %q: %w" (config.image ∷ []) x), record d' { world = w })
              | ok _ ↦ elim again [
                | err x ↦ (err (wrap "container create: %w" [] x), d'')
                | ok id ↦ (ok id, d'')
              ]
            ])
      ]

  -- `Create` behind the provisioning.
  launch : String → String → ContainerSpec → Docker C → Result Handle × Docker C
  unfolding pull_and_create
  launch network proxy config d =
      let (r, d') = pull_and_create config d in
      elim r [
        | err e ↦ (err e, rollback network proxy d')
        | ok id ↦
            let (started, w) = C.container_start id d'.world in
            elim started [
              | err e ↦ (
                err (wrap "container start: %w" [] e),
                rollback network proxy (remove_container id (record d' { world = w })),
              )
              | ok _ ↦ (ok (record { id = id; name = config.name }), record d' { world = w })
            ]
      ]

  -- `Create`
  unfoldable pub create : String → Spec → Docker C → Result Handle × Docker C
  unfolding launch pull_and_create
  create proxy_image spec d =
      let (r, d') = provision proxy_image (sandbox_id spec.labels) spec d in
      elim r [
        | err e ↦ (err e, d')
        | ok (network, proxy) ↦
            let name = if spec.name == "" then "" else "kp-" <> spec.name in
            launch network proxy (build_container_config spec network name) d'
      ]

  -- A removal of each.
  unfoldable pub remove_containers : List String → Docker C → Docker C
  remove_containers [] d = d
  remove_containers (id ∷ ids) d = remove_containers ids (remove_container id d)

  unfoldable pub remove_networks : List String → Docker C → Docker C
  remove_networks [] d = d
  remove_networks (name ∷ names) d = remove_networks names (remove_network name d)

  -- `cleanupSandboxGroup`
  unfoldable pub cleanup_group : String → Docker C → Docker C
  cleanup_group id d =
      let d' : Docker C = elim (C.container_list label_sandbox_id id d.world) [
        | err e ↦ d
        | ok ids ↦ remove_containers ids d
      ] in
      elim (C.network_list label_sandbox_id id d'.world) [
        | err e ↦ d'
        | ok names ↦ remove_networks names d'
      ]

  -- `Remove`
  unfoldable pub remove : String → Docker C → Result (Unit {0}) × Docker C
  unfolding cleanup_group
  remove id d =
      let group : String = elim (C.container_inspect id d.world) [
        | err e ↦ ""
        | ok seen ↦ sandbox_id seen.labels
      ] in
      let d' = remove_container id d in (ok tt, if group == "" then d' else cleanup_group group d')

  -- `CleanPoolOrphans`
  unfoldable pub clean_pool_orphans : Docker C → Result (Unit {0}) × Docker C
  clean_pool_orphans d = elim (C.container_list label_role "pool-warm" d.world) [
    | err e ↦ (err (wrap "list pool orphans: %w" [] e), d)
    | ok ids ↦ (ok tt, remove_containers ids d)
  ]

  -- `EnsureImage`
  unfoldable pub ensure_image : String → Docker C → Result Bool × Docker C
  ensure_image ref d =
      let (pulled, w) = C.image_pull ref d.world in
      elim (C.image_inspect ref d.world) [
        | ok _ ↦ (ok false, d)
        | err e ↦
            if not (C.is_not_found e)
            then (err (wrap "inspect image %q: %w" (ref ∷ []) e), d)
            else (elim pulled [
              | err x ↦ (err (wrap "pull image %q: %w" (ref ∷ []) x), record d { world = w })
              | ok _ ↦ (ok true, record d { world = w })
            ])
      ]

  -- `ProxyAddr`
  unfoldable pub proxy_addr : String → Docker C → Result String
  proxy_addr id d = elim (C.container_inspect ("kp-proxy-" <> id) d.world) [
    | err e ↦
        if C.is_not_found e then err (sentinel no_proxy) else err (wrap "inspect proxy: %w" [] e)
    | ok seen ↦ bridge_address id seen.addresses
  ]
