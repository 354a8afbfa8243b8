-- ===== src/Base/Results.antt =====
-- Go's errors as values: what `errors.New` and `fmt.Errorf` build, and the chain that `%w` keeps.
use Prim.Native.String.{String}
use mathlib.Core.Path.{◌≡◌, refl}
use mathlib.Core.Bool.{Bool, true, false}
use mathlib.Core.Logic.{◌⊎◌, inl, inr}
use mathlib.Core.List.{List}
use kotakpasir.Base.Equality.{◌==◌, string_eq}

-- `message` has a format and its arguments. A `sentinel` is a package variable, which `errors.Is`
-- finds under any number of wrappers; `wrap` is an `fmt.Errorf` with `%w`.
pub data Error : Type 0 where
  sentinel : String → Error
  message : String → List String → Error
  wrap : String → List String → Error → Error

-- `errors.Is(err, sentinel)`
unfoldable pub is_error : Error → String → Bool
is_error (sentinel s) t = s == t
is_error (message f args) t = false
is_error (wrap f args e) t = is_error e t

pub data Result {ℓ} (A : Type ℓ) : Type ℓ where
  ok : A → Result A
  err : Error → Result A

-- A chain of results stops at its first error.
infixl 5 ◌>>=◌
abbrev pub ◌>>=◌ {ℓ κ} : {A : Type ℓ} {B : Type κ} (r : Result A) → (A → Result B) → Result B
err x >>= next = err x
ok v >>= next = next v

infixl 5 ◌>>◌
abbrev pub ◌>>◌ {ℓ} : {B : Type ℓ} → Result (Unit {0}) → Result B → Result B
r >> next = r >>= λ _. next

-- `if bad { return err }`
abbrev pub fail_if : Bool → Error → Result (Unit {0})
fail_if true e = err e
fail_if false e = ok tt

pub Result-cases {ℓ} :
    {A : Type ℓ} (r : Result A) → ((a : A) × (r ≡ ok a)) ⊎ ((e : Error) × (r ≡ err e))
Result-cases (ok a) = inl (a, refl)
Result-cases (err e) = inr (e, refl)
