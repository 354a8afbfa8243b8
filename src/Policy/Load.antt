-- ===== src/Policy/Load.antt =====
-- internal/policy/policy.go: `Load`. Reading a file and decoding YAML are parameters.
use kotakpasir.Base.{
  ◌≡◌, refl, [], ◌∷◌, String, if◌then◌else◌, ◌==◌, string_eq, wrap, is_error, Result, ok, err,
  arith,
}
use kotakpasir.Base.Int.{int_eq}
use kotakpasir.Policy.{Policy, default_policy}
use kotakpasir.Policy.Validate.{validate}
use kotakpasir.Policy.Validate.Laws.{IsValid, validate-IsValid}

-- `fs.ErrNotExist`
abbrev pub not_exist : String
not_exist = "file does not exist"

-- `Load`
unfoldable pub load : (String → Result String) → (String → Result Policy) → String → Result Policy
load read parse path = if path == "" then ok default_policy else elim (read path) [
  | err e ↦
      if is_error e not_exist
      then ok default_policy
      else err (wrap "read policy %q: %w" (path ∷ []) e)
  | ok text ↦ elim (parse text) [
    | err e ↦ err (wrap "parse policy %q: %w" (path ∷ []) e)
    | ok p ↦ elim (validate p) [
      | err e ↦ err (wrap "invalid policy %q: %w" (path ∷ []) e)
      | ok _ ↦ ok p
    ]
  ]
]

validate_default : validate default_policy ≡ ok tt
unfolding validate default_policy string_eq int_eq
validate_default = refl

validate-load :
    (read : String → Result String) (parse : String → Result Policy) (path : String) (p : Policy)
    → load read parse path ≡ ok p
    → validate p ≡ ok tt
unfolding load
validate-load read parse path p h = ground (arith, h, validate_default)

-- Whatever the file and the decoder give, a policy that `Load` returns is valid, the default one
-- included, which stands in for no path and for a file that does not exist.
pub load-IsValid :
    (read : String → Result String) (parse : String → Result Policy) (path : String) (p : Policy)
    → load read parse path ≡ ok p
    → IsValid p
load-IsValid read parse path p h = (validate-IsValid p).0 (validate-load read parse path p h)
