-- ===== src/Docker/Provision/Removal.antt =====
-- What a removal asks for.
use kotakpasir.Base.{
  ◌≡◌, ◌≢◌, refl, List, [], ◌∷◌, ◌++◌, reverse, String, string_eq, ok, arith, ◌∙◌,
}
use mathlib.Core.List.{reverse-cons, append_assoc}
use kotakpasir.Docker.{Client, Inspected, label_sandbox_id}
use kotakpasir.Docker.Provision.{
  Docker, remove_container, remove_containers, remove_networks, remove_network, cleanup_group,
  remove, sandbox_id,
}

module _ {C : Client} where
  remove_containers_dropped :
      (ids : List String) (d : Docker C)
      → ((remove_containers ids d).dropped ≡ reverse ids ++ d.dropped)
        × ((remove_containers ids d).networks_dropped ≡ d.networks_dropped)
  unfolding remove_containers
  remove_containers_dropped [] d = (refl, refl)
  remove_containers_dropped (id ∷ ids) d =
      let (dropped, networks) = remove_containers_dropped ids (remove_container id d) in
      (dropped ∙ cc (reverse-cons id ids, append_assoc (reverse ids) (id ∷ []) d.dropped), networks)

  remove_networks_dropped :
      (names : List String) (d : Docker C)
      → ((remove_networks names d).networks_dropped ≡ reverse names ++ d.networks_dropped)
        × ((remove_networks names d).dropped ≡ d.dropped)
  unfolding remove_networks
  remove_networks_dropped [] d = (refl, refl)
  remove_networks_dropped (name ∷ names) d =
      let (networks, dropped) = remove_networks_dropped names (remove_network name d) in
      (
        networks
            ∙ cc (
              reverse-cons name names,
              append_assoc (reverse names) (name ∷ []) d.networks_dropped,
            ),
        dropped,
      )

  -- When the daemon answers, `Remove` of a container with a sandbox id asks to remove it, then every
  -- container that is listed under that sandbox id, and then every network under it; it never fails.
  pub remove_group :
      (id : String) (d : Docker C) (seen : Inspected) (ids names : List String)
      → C.container_inspect id d.world ≡ ok seen
      → sandbox_id seen.labels ≢ ""
      → C.container_list label_sandbox_id (sandbox_id seen.labels) (remove_container id d).world
        ≡ ok ids
      → C.network_list label_sandbox_id
          (sandbox_id seen.labels)
          (remove_containers ids (remove_container id d)).world
        ≡ ok names
      → ((remove id d).0 ≡ ok tt)
        × ((remove id d).1.dropped ≡ reverse ids ++ (id ∷ d.dropped))
        × ((remove id d).1.networks_dropped ≡ reverse names ++ d.networks_dropped)
  unfolding remove cleanup_group
  remove_group id d seen ids names i g c n = ground (
    arith,
    i,
    g,
    c,
    n,
    remove_containers_dropped ids (remove_container id d),
    remove_networks_dropped names (remove_containers ids (remove_container id d)),
  )
