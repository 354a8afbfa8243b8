-- ===== src/Docker/Restart.antt =====
-- What a start of kpd does to the containers of the sandboxes that came from a pool.
mod Tests
use kotakpasir.Base.{
  ℕ, ◌≡◌, ◌≢◌, ◌⊎◌, inl, inr, refl, sym, ap, subst, ◌∙◌, Bool, true, false, Option, none, some,
  List, [], ◌∷◌, String, if◌then◌else◌, ◌==◌, string_eq, string_dec, contains, Error, Result, ok,
  err, arith, Result-cases, Bool-cases, ==_refl, eq_of_==, ne_of_==,
}
use kotakpasir.Base.Dict.{Dict, lookup, insert, lookup-insert}
use kotakpasir.Base.Int.{ℤ}
use kotakpasir.Policy.{Resolved}
use kotakpasir.Policy.Resolve.{resolve}
use kotakpasir.Pool
use kotakpasir.Pool.{Pool, Config, label_role, label_pool_image, role_pool_warm}
use kotakpasir.Runtime.{Runtime, Spec}
use kotakpasir.Sandbox.{Sandbox, Store, CreateOptions, running}
use kotakpasir.Sandbox.Contract.{Contract}
use kotakpasir.Manager.{Manager, refresh_active}
use kotakpasir.Manager.Create.{create, enter, new_sandbox, request_of}
use kotakpasir.Manager.Create.Outcome.{create-IsStored}
use kotakpasir.Manager.Pools.{try_claim, pool_matches_resolved}
use kotakpasir.Docker.{Client, ContainerSpec}
use kotakpasir.Docker.Exec.{ExecClient}
use kotakpasir.Docker.Backend.{backend}
use kotakpasir.Docker.Provision.{Docker, remove_container, remove_containers, clean_pool_orphans}

-- Whether the labels have the text under the label.
abbrev pub has_label : String → String → Dict String → Bool
has_label label text labels = elim (lookup label labels) [ none ↦ false | some t ↦ t == text ]

-- What the program relies on of the daemon: a container whose removal works is gone, no other is touched,
-- and a list by a label has those containers that have the label.
pub record IsDaemon (C : Client) : Type 0 where
  pub labels_of : String → C.State → Option (Dict String)
  pub remove_law :
      (id : String) (w : C.State)
      → (C.container_remove id w).0 ≡ ok tt
      → labels_of id (C.container_remove id w).1 ≡ none
  pub others_law :
      (id other : String) (w : C.State)
      → id ≢ other
      → labels_of other (C.container_remove id w).1 ≡ labels_of other w
  pub list_law :
      (id label text : String) (w : C.State) (found : List String) (labels : Dict String)
      → C.container_list label text w ≡ ok found
      → labels_of id w ≡ some labels
      → contains found id ≡ has_label label text labels

module _ {C : Client} (D : IsDaemon C) where
  removed :
      (id other : String) (w : C.State)
      → (C.container_remove id w).0 ≡ ok tt
      → D.labels_of other (C.container_remove id w).1
        ≡ (if id == other then none else D.labels_of other w)
  removed id other w h = elim (Bool-cases (id == other)) [
    | inl same ↦ rw same (
        subst (λ x. D.labels_of x (C.container_remove id w).1 ≡ none) (eq_of_== id other same)
          (D.remove_law id w h))
    | inr off ↦ rw off (D.others_law id other w (ne_of_== id other off))
  ]

  remove_containers_gone :
      (ids : List String) (id : String) (d : Docker C)
      → ((other : String) (w : C.State) → (C.container_remove other w).0 ≡ ok tt)
      → D.labels_of id (remove_containers ids d).world
        ≡ (if contains ids id then none else D.labels_of id d.world)
  unfolding remove_containers
  remove_containers_gone [] id d works = refl
  remove_containers_gone (x ∷ ids) id d works = ground (
    arith,
    remove_containers_gone ids id (remove_container x d) works,
    removed x id d.world (works x d.world),
  )

  -- The clean-up of orphans on a daemon that answers and on which each removal works: of the containers
  -- that are there, it removes those with the label of a warm container, each and no other.
  pub clean_pool_orphans_outcome :
      (id : String) (d : Docker C) (labels : Dict String) (found : List String)
      → ((other : String) (w : C.State) → (C.container_remove other w).0 ≡ ok tt)
      → D.labels_of id d.world ≡ some labels
      → C.container_list label_role role_pool_warm d.world ≡ ok found
      → ((clean_pool_orphans d).0 ≡ ok tt)
        × (D.labels_of id (clean_pool_orphans d).1.world
            ≡ (if has_label label_role role_pool_warm labels then none else some labels))
  unfolding clean_pool_orphans
  clean_pool_orphans_outcome id d labels found works held listed =
      let gone = remove_containers_gone found id d works in
      let law = D.list_law id label_role role_pool_warm d.world found labels listed held in
      (ground (arith, listed), ground (arith, listed, gone, law, held))

module _ {R : Runtime} {S : Store} where
  -- A creation that claims a warm container does not ask the runtime for anything.
  create_claimed :
      (opts : CreateOptions) (id : String) (now : ℕ) (m : Manager R S) (r : Resolved) (p : Pool)
      (warm : String) (rest : List String) (sb : Sandbox)
      → resolve m.policy (request_of opts) ≡ ok r
      → lookup r.image m.pools ≡ some p
      → p.closed ≡ false
      → p.avail ≡ warm ∷ rest
      → pool_matches_resolved m.policy r ≡ true
      → (create opts id now m).0 ≡ ok sb
      → (sb.runtime_id ≡ warm) × ((create opts id now m).1.world ≡ m.world)
  unfolding create enter try_claim Pool.get refresh_active
  create_claimed opts id now m r p warm rest sb res pooled free avail matches h =
      ground (arith, res, pooled, free, avail, matches, h)

-- The labels that a pool gives its containers.
new_role :
    (cfg : Config) (spec : Spec)
    → lookup label_role (Pool.new cfg spec).spec.labels ≡ some role_pool_warm
unfolding Pool.new string_eq string_dec
new_role cfg spec =
    let inner = insert label_role role_pool_warm spec.labels in
    let middle = insert label_pool_image cfg.image inner in
    lookup-insert "kotakpasir.managed" label_role "true" middle
    ∙ lookup-insert label_pool_image label_role cfg.image inner
    ∙ lookup-insert label_role label_role role_pool_warm spec.labels

module _ {C : Client} (D : IsDaemon C) (E : ExecClient) (proxy_image : String) (elapsed : ℤ)
    (pinged : Docker C × E.State → Result (Unit {0})) {S : Store} (L : Contract S) where
  -- A sandbox that is created from a pool, by a claim of a warm container with the labels that the pool
  -- gives: it runs, the store holds it as running, and its container is there. When kpd then starts
  -- again, its clean-up of orphans removes the container, where the daemon answers and
  -- each removal works.
  pub claimed_lost :
      (opts : CreateOptions) (id : String) (now : ℕ)
      (m : Manager (backend C E proxy_image elapsed pinged) S) (r : Resolved) (p : Pool)
      (cfg : Config) (spec : Spec) (warm : String) (rest found : List String) (sb : Sandbox)
      → L.IsGood m.db
      → ((other : String) (w : C.State) → (C.container_remove other w).0 ≡ ok tt)
      → resolve m.policy (request_of opts) ≡ ok r
      → lookup r.image m.pools ≡ some p
      → p.closed ≡ false
      → p.avail ≡ warm ∷ rest
      → pool_matches_resolved m.policy r ≡ true
      → D.labels_of warm m.world.0.world ≡ some (Pool.new cfg spec).spec.labels
      → (create opts id now m).0 ≡ ok sb
      → C.container_list label_role role_pool_warm m.world.0.world ≡ ok found
      → let n = (create opts id now m).1 in
        (sb.state ≡ running)
        × (L.contents n.db sb.id ≡ some (L.kept sb (L.contents m.db sb.id)))
        × (D.labels_of sb.runtime_id n.world.0.world ≡ some (Pool.new cfg spec).spec.labels)
        × (D.labels_of sb.runtime_id (clean_pool_orphans n.world.0).1.world ≡ none)
  claimed_lost opts id now m r p cfg spec warm rest found sb good works res pooled free avail
        matches held h listed =
      let (_, _, _, _, stored) = create-IsStored L opts id now m sb good h in
      let (same, world) =
        create_claimed opts id now m r p warm rest sb res pooled free avail matches h in
      (
        stored.state,
        stored.stored,
        ap (λ w. D.labels_of sb.runtime_id w.0.world) world
            ∙ ap (λ x. D.labels_of x m.world.0.world) same
            ∙ held,
        ap (λ w. D.labels_of sb.runtime_id (clean_pool_orphans w.0).1.world) world
            ∙ ap (λ x. D.labels_of x (clean_pool_orphans m.world.0).1.world) same
            ∙ (clean_pool_orphans_outcome D warm m.world.0 (Pool.new cfg spec).spec.labels found
                works held listed).1
            ∙ ground (arith, new_role cfg spec, ==_refl role_pool_warm),
      )
