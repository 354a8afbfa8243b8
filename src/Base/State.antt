-- ===== src/Base/State.antt =====
-- Methods that change an object and may fail: the state is returned on an error too.
use kotakpasir.Base.Results.{Error, Result, ok, err}

-- A method on objects of type `St`.
abbrev pub Method {ℓ κ} : Type ℓ → Type κ → Type (ℓ ⊔ κ)
Method St A = St → Result A × St

module _ {ℓ κ} {St : Type ℓ} {A : Type κ} where
  abbrev pub return : A → Method St A
  return a s = (ok a, s)

  abbrev pub fail : Error → Method St A
  fail e s = (err e, s)

  -- `_ = m(...)`, or a result that is looked at: the error does not end the caller.
  abbrev pub attempt : Method St A → Method St (Result A)
  attempt m s = let (r, s') = m s in (ok r, s')

infixl 5 ◌>>=◌ ◌>>◌
abbrev pub ◌>>=◌ {ℓ κ μ} :
    {St : Type ℓ} {A : Type κ} {B : Type μ} → Method St A → (A → Method St B) → Method St B
◌>>=◌ m f s = let (r, s') = m s in elim r [ ok a ↦ f a s' | err e ↦ (err e, s') ]

abbrev pub ◌>>◌ {ℓ κ} :
    {St : Type ℓ} {B : Type κ} → Method St (Unit {0}) → Method St B → Method St B
m >> k = m >>= λ _. k

-- A change that cannot fail.
abbrev pub modify {ℓ} : {St : Type ℓ} → (St → St) → Method St (Unit {0})
modify f s = (ok tt, f s)
