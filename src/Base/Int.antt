-- ===== src/Base/Int.antt =====
-- Signed machine integers (`int`, `int64`, `time.Duration`) as integers, with the tests that the
-- program makes on them. The library's ℤ stands on the unary numbers.
use Prim.Native.Nat.{ℕ}
use mathlib.Core.Bool.{Bool, true, false}
use native.Mathlib.Decide.{ℕ_discrete}
use kotakpasir.Base.Equality.{Eq}

-- `negsuc n` is -(n + 1).
pub data ℤ : Type 0 where
  pos : ℕ → ℤ
  negsuc : ℕ → ℤ

unfoldable pub ℤ_discrete : Discrete ℤ
unfolding ℕ_discrete
ℤ_discrete = hlevel ℕ_discrete

instance unfoldable pub int_eq : Eq ℤ
unfolding ℤ_discrete
int_eq = record { dec = ℤ_discrete }

-- `0 < n`
abbrev pub is_pos : ℤ → Bool
is_pos (pos ℕ.zero) = false
is_pos (pos (ℕ.suc n)) = true
is_pos (negsuc n) = false

-- `n < 0`
abbrev pub is_neg : ℤ → Bool
is_neg (pos n) = false
is_neg (negsuc n) = true

-- The value, or 0 for a negative number: what a loop `for range n` runs.
abbrev pub to_ℕ : ℤ → ℕ
to_ℕ (pos n) = n
to_ℕ (negsuc n) = 0

-- `cmp.Or(n, m)`: the first that is not 0.
abbrev pub or_int : ℤ → ℤ → ℤ
or_int (pos ℕ.zero) m = m
or_int (pos (ℕ.suc n)) m = pos (ℕ.suc n)
or_int (negsuc n) m = negsuc n
