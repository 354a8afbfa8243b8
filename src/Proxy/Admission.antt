-- ===== src/Proxy/Admission.antt =====
-- Which CONNECT requests the proxy lets through.
use kotakpasir.Base.{
  ◌≡◌, ◌≢◌, ◌↔◌, inl, inr, true, false, List, [], ◌∷◌, String, ◌==◌, string_eq, contains, Result,
  ok, arith, ==_refl, eq_of_==, ne_of_==, Bool-cases, Result-cases,
}
use kotakpasir.Base.Text.{Chars, to_lower, trim_space}
use kotakpasir.Proxy.{Config, normalize, is_allowed, is_denied, connect}

module _ (chars : Chars) where
  -- An entry of a list of hosts names a host: they agree up to case and the white space around the
  -- entry, and the entry is not blank.
  abbrev pub IsNamed : List String → String → Type 0
  IsNamed hosts host =
      (entry : String) × (contains hosts entry ≡ true)
      × (to_lower chars (trim_space chars entry) ≡ to_lower chars host)
      × (to_lower chars (trim_space chars entry) ≢ "")

  IsNamed-later :
      (x : String) (hosts : List String) (host : String)
      → IsNamed hosts host
      → IsNamed (x ∷ hosts) host
  IsNamed-later x hosts host (entry, h, same, filled) = (entry, ground (arith, h), same, filled)

  -- The hosts of a normalized list, in lower case.
  contains-normalize :
      (hosts : List String) (host : String)
      → (contains (normalize chars hosts) (to_lower chars host) ≡ true) ↔ IsNamed hosts host
  unfolding normalize
  contains-normalize [] host = (λ h. cc h, λ (entry, h, _, _). cc h)
  contains-normalize (x ∷ hosts) host =
      let t = to_lower chars (trim_space chars x) in
      let t' = to_lower chars host in
      let later = contains-normalize hosts host in
      (
        λ h. elim (Bool-cases (t == "")) [
          | inl blank ↦ IsNamed-later x hosts host (later.0 (ground (arith, h, blank)))
          | inr filled ↦ elim (Bool-cases (t == t')) [
            | inl same ↦ (x, ground (arith, ==_refl x), eq_of_== t t' same, ne_of_== t "" filled)
            | inr differ ↦ IsNamed-later x hosts host (later.0 (ground (arith, h, filled, differ)))
          ]
        ],
        λ (entry, listed, same, filled). elim (Bool-cases (x == entry)) [
          | inl here ↦ ground (arith, eq_of_== x entry here, same, filled)
          | inr there ↦ ground (arith, later.1 (entry, ground (arith, listed, there), same, filled))
        ],
      )

  admitted_of_accepted :
      (split : String → Result (String × String)) (cfg : Config) (target : String)
      → (connect chars split cfg target).is_ok ≡ true
      → (host : String) × (port : String) × (split target ≡ ok (host, port))
        × (contains (normalize chars cfg.allowed_hosts) (to_lower chars host) ≡ true)
        × (contains (normalize chars cfg.deny_hosts) (to_lower chars host) ≡ false)
  unfolding connect is_allowed is_denied
  admitted_of_accepted split cfg target h = elim (Result-cases (split target)) [
    | inl ((host, port), e) ↦ (host, port, e, ground (arith, e, h), ground (arith, e, h))
    | inr (x, e) ↦ ground (arith, e, h)
  ]

  accepted_of_admitted :
      (split : String → Result (String × String)) (cfg : Config) (target host port : String)
      → split target ≡ ok (host, port)
      → contains (normalize chars cfg.allowed_hosts) (to_lower chars host) ≡ true
      → contains (normalize chars cfg.deny_hosts) (to_lower chars host) ≡ false
      → (connect chars split cfg target).is_ok ≡ true
  unfolding connect is_allowed is_denied
  accepted_of_admitted split cfg target host port e listed free = ground arith

  -- A CONNECT request is let through exactly when its target is a host and a port, the host is
  -- named by an entry of the allowlist, and no entry of the deny list names it.
  pub connect_iff :
      (split : String → Result (String × String)) (cfg : Config) (target : String)
      → ((connect chars split cfg target).is_ok ≡ true) ↔ (
          (host : String) × (port : String) × (split target ≡ ok (host, port))
          × IsNamed cfg.allowed_hosts host
          × ¬ IsNamed cfg.deny_hosts host)
  connect_iff split cfg target = (
    λ h.
        let (host, port, e, listed, free) = admitted_of_accepted split cfg target h in
        (
          host,
          port,
          e,
          (contains-normalize cfg.allowed_hosts host).0 listed,
          λ named. cc (free, (contains-normalize cfg.deny_hosts host).1 named),
        ),
    λ (host, port, e, listed, free).
        accepted_of_admitted split cfg target host port e
          ((contains-normalize cfg.allowed_hosts host).1 listed)
          (elim (Bool-cases (contains (normalize chars cfg.deny_hosts) (to_lower chars host))) [
            | inl denied ↦ elim (free ((contains-normalize cfg.deny_hosts host).0 denied)) [ ]
            | inr passed ↦ passed
          ]),
  )
