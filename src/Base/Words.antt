-- ===== src/Base/Words.antt =====
-- Numbers as an `int64`, which wraps around.
use Prim.Native.Nat.{ℕ, suc, ◌-◌, ◌%◌, ◌^◌}
use kotakpasir.Base.Equality.{if◌then◌else◌}
use kotakpasir.Base.Numbers.{ltb}
use kotakpasir.Base.Int.{ℤ, pos, negsuc}

-- A number below 2^64 by its 64 bits.
unfoldable pub signed : ℕ → ℤ
signed n = if ltb n (2 ^ 63) then pos n else negsuc (2 ^ 64 - suc n)

-- A number cut to its last 64 bits.
unfoldable pub wrapped : ℤ → ℤ
unfolding signed
wrapped (pos n) = signed (n % 2 ^ 64)
wrapped (negsuc n) = signed ((2 ^ 64 - suc n % 2 ^ 64) % 2 ^ 64)
