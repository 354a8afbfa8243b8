-- ===== src/Docker/Provision/Rollback.antt =====
-- What a creation leaves behind when it fails.
use kotakpasir.Base.{
  ℕ, ◌+◌, ◌≡◌, ◌≢◌, refl, ◌⊎◌, inl, inr, true, ◌<>◌, List, [], ◌∷◌, String, if◌then◌else◌, ◌==◌,
  string_eq, Error, ok, err, arith, Result-cases, Bool-cases, contains,
}
use kotakpasir.Runtime.{Spec, Handle}
use kotakpasir.Docker.{Client, ContainerSpec, build_container_config}
use kotakpasir.Docker.Provision.{
  Docker, start_proxy, create_proxy, provision, pull_and_create, launch, create, sandbox_id,
}

abbrev pub count : String → List String → ℕ
count x [] = 0
count x (y ∷ ys) = (if y == x then 1 else 0) + count x ys

-- Of the containers and of the networks under the name `x`, as many were made as were removed
-- between the two states.
abbrev pub IsBalanced : {C : Client} → String → Docker C → Docker C → Type 0
IsBalanced x d e =
    (count x e.made + count x d.dropped ≡ count x e.dropped + count x d.made)
    × (count x e.networks_made + count x d.networks_dropped
        ≡ count x e.networks_dropped + count x d.networks_made)

-- The same, but for the network and the proxy of an egress allowlist.
abbrev pub IsProvisioned : {C : Client} → String → String → String → Docker C → Docker C → Type 0
IsProvisioned network proxy x d e =
    (count x e.made + count x d.dropped
      ≡ count x e.dropped + count x d.made + (if proxy == x then 1 else 0))
    × (count x e.networks_made + count x d.networks_dropped
        ≡ count x e.networks_dropped + count x d.networks_made + (if network == x then 1 else 0))

-- The same, with the container of a handle.
abbrev pub IsLaunched :
    {C : Client} → String → String → String → String → Docker C → Docker C → Type 0
IsLaunched network proxy id x d e =
    (count x e.made + count x d.dropped
      ≡ count x e.dropped
        + count x d.made
        + (if proxy == x then 1 else 0)
        + (if id == x then 1 else 0))
    × (count x e.networks_made + count x d.networks_dropped
        ≡ count x e.networks_dropped + count x d.networks_made + (if network == x then 1 else 0))

-- What stands behind a sandbox: with an egress allowlist a network and a proxy that was made, and
-- nothing where the egress mode is empty or `none`.
abbrev pub IsGroup : {C : Client} → Spec → String → String → String → Docker C → Type 0
IsGroup spec id network proxy d =
    ((spec.egress.mode ≡ "allowlist")
      × (network ≡ "kp-net-" <> id)
      × (contains d.made proxy ≡ true))
    ⊎ (((spec.egress.mode ≡ "") ⊎ (spec.egress.mode ≡ "none")) × (network ≡ "") × (proxy ≡ ""))

but_empty : {P : Type 0} (x : String) → (x ≢ "" → P) → (x ≡ "") ⊎ P
but_empty x f = elim (Bool-cases (x == "")) [
  | inl e ↦ inl (ground (arith, e))
  | inr e ↦ inr (f (ground (arith, e)))
]

module _ {C : Client} where
  provision_err :
      (x proxy_image id : String) (spec : Spec) (d : Docker C) (e : Error)
      → (provision proxy_image id spec d).0 ≡ err e
      → IsBalanced x d (provision proxy_image id spec d).1
  unfolding provision create_proxy start_proxy
  provision_err x proxy_image id spec d e h = ground (arith, h)

  provision_ok :
      (x proxy_image id : String) (spec : Spec) (d : Docker C) (network proxy : String)
      → x ≢ ""
      → (provision proxy_image id spec d).0 ≡ ok (network, proxy)
      → IsProvisioned network proxy x d (provision proxy_image id spec d).1
  unfolding provision create_proxy start_proxy
  provision_ok x proxy_image id spec d network proxy ne h = ground (arith, h)

  provision_mode :
      (proxy_image id : String) (spec : Spec) (d : Docker C) (network proxy : String)
      → (provision proxy_image id spec d).0 ≡ ok (network, proxy)
      → IsGroup spec id network proxy (provision proxy_image id spec d).1
  unfolding provision create_proxy start_proxy
  provision_mode proxy_image id spec d network proxy h = ground (arith, h)

  launch_made :
      (x network proxy : String) (config : ContainerSpec) (d : Docker C) (h : Handle)
      → (launch network proxy config d).0 ≡ ok h
      → contains d.made x ≡ true
      → contains (launch network proxy config d).1.made x ≡ true
  unfolding launch pull_and_create
  launch_made x network proxy config d h q held = ground (arith, q, held)

  launch-IsGroup :
      (spec : Spec) (id network proxy : String) (config : ContainerSpec) (d : Docker C) (h : Handle)
      → (launch network proxy config d).0 ≡ ok h
      → IsGroup spec id network proxy d
      → IsGroup spec id network proxy (launch network proxy config d).1
  launch-IsGroup spec id network proxy config d h q (inl (mode, name, held)) =
      inl (mode, name, launch_made proxy network proxy config d h q held)
  launch-IsGroup spec id network proxy config d h q (inr none_made) = inr none_made

  launch_err :
      (x network proxy : String) (config : ContainerSpec) (d0 d : Docker C) (e : Error)
      → x ≢ ""
      → IsProvisioned network proxy x d0 d
      → (launch network proxy config d).0 ≡ err e
      → IsBalanced x d0 (launch network proxy config d).1
  unfolding launch pull_and_create
  launch_err x network proxy config d0 d e ne held h = ground (arith, h)

  launch_ok :
      (x network proxy : String) (config : ContainerSpec) (d0 d : Docker C) (h : Handle)
      → IsProvisioned network proxy x d0 d
      → (launch network proxy config d).0 ≡ ok h
      → IsLaunched network proxy h.id x d0 (launch network proxy config d).1
  unfolding launch pull_and_create
  launch_ok x network proxy config d0 d h held q = ground (arith, q)

  create_refused :
      (proxy_image : String) (spec : Spec) (d : Docker C) (e : Error)
      → (provision proxy_image (sandbox_id spec.labels) spec d).0 ≡ err e
      → create proxy_image spec d
        ≡ (err e, (provision proxy_image (sandbox_id spec.labels) spec d).1)
  unfolding create
  create_refused proxy_image spec d e h = ground (arith, h)

  create_launched :
      (proxy_image : String) (spec : Spec) (d : Docker C) (network proxy : String)
      → (provision proxy_image (sandbox_id spec.labels) spec d).0 ≡ ok (network, proxy)
      → create proxy_image spec d
        ≡ launch network proxy
            (build_container_config spec network
              (if spec.name == "" then "" else "kp-" <> spec.name))
            (provision proxy_image (sandbox_id spec.labels) spec d).1
  unfolding create
  create_launched proxy_image spec d network proxy h = ground (arith, h)

  -- `Create` cleans up after itself. When it fails, it has asked to remove every container and every
  -- network that it had made. When it succeeds, what it made and did not remove is the container of
  -- the handle and, with an egress allowlist, one proxy, which it did make, and one network, named after
  -- the sandbox. It succeeds only with an egress allowlist or with none. The ids are any but the empty
  -- text, which stands for no proxy and no network.
  pub create_outcome :
      (proxy_image : String) (spec : Spec) (d : Docker C)
      → let r = create proxy_image spec d in
        ((e : Error) × (r.0 ≡ err e) × ((x : String) → (x ≡ "") ⊎ IsBalanced x d r.1))
        ⊎ ((h : Handle) × (network : String) × (proxy : String) × (r.0 ≡ ok h)
            × ((x : String) → (x ≡ "") ⊎ IsLaunched network proxy h.id x d r.1)
            × IsGroup spec (sandbox_id spec.labels) network proxy r.1)
  create_outcome proxy_image spec d =
      let id = sandbox_id spec.labels in
      let after = (provision proxy_image id spec d).1 in
      elim (Result-cases (provision proxy_image id spec d).0) [
        | inr (e, q) ↦
            rw (create_refused proxy_image spec d e q)
              (inl (e, refl, λ x. inr (provision_err x proxy_image id spec d e q)))
        | inl ((network, proxy), q) ↦
            let config =
              build_container_config spec network
                (if spec.name == "" then "" else "kp-" <> spec.name) in
            let held = λ (x : String) (ne : x ≢ "").
              provision_ok x proxy_image id spec d network proxy ne q in
            rw (create_launched proxy_image spec d network proxy q)
              (elim (Result-cases (launch network proxy config after).0) [
                | inr (e, h) ↦ inl (
                  e,
                  h,
                  λ x.
                      but_empty x
                        (λ ne. launch_err x network proxy config d after e ne (held x ne) h),
                )
                | inl (handle, h) ↦ inr (
                  handle,
                  network,
                  proxy,
                  h,
                  λ x.
                      but_empty x
                        (λ ne. launch_ok x network proxy config d after handle (held x ne) h),
                  launch-IsGroup spec id network proxy config after handle h
                      (provision_mode proxy_image id spec d network proxy q),
                )
              ])
      ]
