-- ===== src/Proxy/Env.antt =====
-- What the proxy reads from the environment that the Docker backend gives it.
use kotakpasir.Base.{
  ◌≡◌, ◌≢◌, ◌↔◌, refl, sym, ap, subst, ◌∙◌, inl, inr, Bool-cases, eq_of_==, Bool, true, false, none,
  List, [], ◌∷◌, String, ◌<>◌, if◌then◌else◌, ◌==◌, string_eq, string_dec, nat_eq, All, Result, ok,
  arith,
}
use Prim.Native.Char.{code}
use text.Mathlib.TextLemmas.{cons-append}
use kotakpasir.Base.Text.{
  Chars, has_comma, trim_space, trim_start, trim_end, cut_comma, strip_text, strip_text-append,
  cut_comma_whole, cut_comma_part,
}
use kotakpasir.Docker.{join, proxy_config, default_deny_hosts}
use kotakpasir.Proxy.{keep_parts, split_csv, getenv, config_of, connect}
use kotakpasir.Proxy.Admission.{IsNamed, connect_iff}

-- Two names of which neither is a prefix of the other.
abbrev differ : String → String → Bool
differ (String.◌∷◌ c p) (String.◌∷◌ d q) =
    let rest = differ p q in if code c == code d then rest else true
differ _ _ = false

strip_text_other : (p q s : String) → differ p q ≡ true → strip_text p (q <> s) ≡ none
unfolding strip_text
strip_text_other String.[] q s h = cc h
strip_text_other (String.◌∷◌ c p) String.[] s h = cc h
strip_text_other (String.◌∷◌ c p) (String.◌∷◌ d q) s h =
    ap (strip_text (String.◌∷◌ c p)) (cons-append d q s) ∙ ground (arith, h, strip_text_other p q s)

module _ (chars : Chars) where
  -- A host as it is written in a list: not empty, without commas and without white space around it.
  pub record IsPlain (s : String) : Type 0 where
    pub filled : s ≢ ""
    pub whole : has_comma s ≡ false
    pub trimmed : trim_space chars s ≡ s

  keep_one :
      (x : String) (parts : List String)
      → IsPlain x
      → keep_parts chars (x ∷ parts) ≡ x ∷ keep_parts chars parts
  unfolding keep_parts
  keep_one x parts p = ground (arith, p.trimmed, p.filled)

  abbrev kept : String × List String → List String
  kept (part, parts) = keep_parts chars (part ∷ parts)

  keep_parts-join :
      (x : String) (xs : List String)
      → IsPlain x
      → All IsPlain xs
      → kept (cut_comma (join (x ∷ xs))) ≡ x ∷ xs
  unfolding join keep_parts
  keep_parts-join x [] p ps = ap kept (cut_comma_whole x p.whole) ∙ keep_one x [] p
  keep_parts-join x (y ∷ xs) p ps =
      ap kept (cut_comma_part x (join (y ∷ xs)) p.whole)
      ∙ keep_one x ((cut_comma (join (y ∷ xs))).0 ∷ (cut_comma (join (y ∷ xs))).1) p
      ∙ ap (x ∷◌) (keep_parts-join y xs ps.0 ps.1)

  join_filled : (x : String) (xs : List String) → IsPlain x → All IsPlain xs → join (x ∷ xs) ≢ ""
  unfolding cut_comma keep_parts trim_space string_eq string_dec trim_start trim_end
  join_filled x xs p ps h =
      let same : x ∷ xs ≡ [] = sym (keep_parts-join x xs p ps) ∙ ap (λ s. kept (cut_comma s)) h in
      cc same

  -- Splitting the joined list gives the list back, where the hosts are plain.
  pub split_csv-join :
      (hosts : List String) → All IsPlain hosts → split_csv chars (join hosts) ≡ hosts
  unfolding split_csv join string_eq string_dec
  split_csv-join [] ps = refl
  split_csv-join (x ∷ xs) ps = elim (Bool-cases (join (x ∷ xs) == "")) [
    | inl blank ↦ elim (join_filled x xs ps.0 ps.1 (eq_of_== (join (x ∷ xs)) "" blank)) [ ]
    | inr filled ↦ rw (filled) (keep_parts-join x xs ps.0 ps.1)
  ]

  getenv_allowed :
      (image id : String) (hosts : List String)
      → getenv "KP_ALLOWED_HOSTS" (proxy_config image id hosts).env ≡ join hosts
  unfolding getenv proxy_config
  getenv_allowed image id hosts = ground (arith, strip_text-append "KP_ALLOWED_HOSTS=" (join hosts))

  getenv_denied :
      (image id : String) (hosts : List String)
      → getenv "KP_DENY_HOSTS" (proxy_config image id hosts).env ≡ join default_deny_hosts
  unfolding getenv proxy_config nat_eq
  getenv_denied image id hosts = ground (
    arith,
    strip_text-append "KP_DENY_HOSTS=" (join default_deny_hosts),
    strip_text_other "KP_DENY_HOSTS=" "KP_ALLOWED_HOSTS=" (join hosts) refl,
  )

  config_of-proxy_config :
      (image id : String) (hosts : List String)
      → All IsPlain hosts
      → All IsPlain default_deny_hosts
      → let cfg = config_of chars (proxy_config image id hosts).env in
        (cfg.allowed_hosts ≡ hosts) × (cfg.deny_hosts ≡ default_deny_hosts)
  unfolding config_of
  config_of-proxy_config image id hosts plain deny = (
    ap (split_csv chars) (getenv_allowed image id hosts) ∙ split_csv-join hosts plain,
    ap (split_csv chars) (getenv_denied image id hosts) ∙ split_csv-join default_deny_hosts deny,
  )

  -- What `connect_iff` says of a proxy with the two lists.
  abbrev Lets :
      (String → Result (String × String)) → Bool → String → List String → List String → Type 0
  Lets split passed target allowed denied = (passed ≡ true) ↔ (
      (host : String) × (port : String) × (split target ≡ ok (host, port))
      × IsNamed chars allowed host
      × ¬ IsNamed chars denied host)

  -- The proxy container that `Create` configures for a sandbox with an allowlist lets a CONNECT
  -- request through exactly when its target is a host and a port, the host is named by an entry of
  -- that allowlist, and it is none of the metadata hosts that are always denied. The hosts of both
  -- lists are not empty, and have no comma and no white space around them.
  pub proxy_of_sandbox_iff :
      (split : String → Result (String × String)) (image id : String) (hosts : List String)
      (target : String)
      → All IsPlain hosts
      → All IsPlain default_deny_hosts
      → ((connect chars split (config_of chars (proxy_config image id hosts).env) target).is_ok
          ≡ true)
        ↔ ((host : String) × (port : String) × (split target ≡ ok (host, port))
            × IsNamed chars hosts host
            × ¬ IsNamed chars default_deny_hosts host)
  proxy_of_sandbox_iff split image id hosts target plain deny =
      let cfg = config_of chars (proxy_config image id hosts).env in
      let (allowed, denied) = config_of-proxy_config image id hosts plain deny in
      let passed = (connect chars split cfg target).is_ok in
      subst (λ hosts'. Lets split passed target hosts' default_deny_hosts) allowed
        (subst (λ deny'. Lets split passed target cfg.allowed_hosts deny') denied
          (connect_iff chars split cfg target))
