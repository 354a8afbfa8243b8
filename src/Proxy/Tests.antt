-- ===== src/Proxy/Tests.antt =====
-- A proxy for two hosts, and requests for one of them in capitals and for the metadata server.
use kotakpasir.Base.{
  ◌≡◌, ◌↔◌, refl, true, false, List, [], ◌∷◌, String, if◌then◌else◌, ◌==◌, string_eq, nat_eq,
  ne_of_==, message, Result, ok, err, All,
}
use Prim.Native.Char.{code}
use kotakpasir.Base.Text.{Chars, to_lower, trim_space, strip_text, has_comma, cut_comma}
use kotakpasir.Docker.{proxy_config, default_deny_hosts}
use kotakpasir.Proxy.{connect, config_of, is_denied, normalize, split_csv, getenv, keep_parts}
use kotakpasir.Proxy.Admission.{IsNamed}
use kotakpasir.Proxy.Env.{IsPlain, proxy_of_sandbox_iff}

-- Blanks, and two letters with their capitals.
abbrev pub latin : Chars
latin = record {
  is_space = λ c. code c == b' ';
  lower = λ c. if code c == b'P' then "p" else if code c == b'I' then "i" else c;
}

-- A host and a port at the first colon.
abbrev at_colon : String → Result (String × String)
at_colon String.[] = err (message "missing port in address" [])
at_colon (String.◌∷◌ c s) =
    let rest = at_colon s in
    if code c == b':'
    then ok (String.[], s)
    else elim rest [ ok (host, port) ↦ ok (String.◌∷◌ c host, port) | err e ↦ err e ]

abbrev hosts : List String
hosts = "pypi.org" ∷ "github.com" ∷ []

plain :
    (s : String)
    → (s == "") ≡ false
    → has_comma s ≡ false
    → trim_space latin s ≡ s
    → IsPlain latin s
plain s filled whole trimmed = record {
  filled = ne_of_== s "" filled;
  whole = whole;
  trimmed = trimmed;
}

plain_hosts : All (IsPlain latin) hosts
unfolding trim_space has_comma nat_eq string_eq
plain_hosts = (plain "pypi.org" refl refl refl, (plain "github.com" refl refl refl, tt))

plain_deny : All (IsPlain latin) default_deny_hosts
unfolding trim_space has_comma nat_eq string_eq
plain_deny = (
  plain "169.254.169.254" refl refl refl,
  (
    plain "metadata.google.internal" refl refl refl,
    (plain "metadata.aws.internal" refl refl refl, tt),
  ),
)

proxy_of_sandbox_iff_example :
    ((connect latin at_colon
        (config_of latin (proxy_config "" "s1" hosts).env)
        "PyPI.org:443").is_ok
      ≡ true)
    ↔ ((host : String) × (port : String) × (at_colon "PyPI.org:443" ≡ ok (host, port))
        × IsNamed latin hosts host
        × ¬ IsNamed latin default_deny_hosts host)
proxy_of_sandbox_iff_example =
    proxy_of_sandbox_iff latin at_colon "" "s1" hosts "PyPI.org:443" plain_hosts plain_deny

metadata_denied :
    (connect latin at_colon
      (config_of latin (proxy_config "" "s1" hosts).env)
      "169.254.169.254:80").is_ok
    ≡ false
unfolding connect config_of nat_eq string_eq proxy_config strip_text trim_space to_lower is_denied
    normalize split_csv getenv keep_parts cut_comma
metadata_denied = refl
