-- ===== src/Api/Deadlines.antt =====
-- The time to live of a request: seconds on the wire, nanoseconds in the manager.
use kotakpasir.Base.{ℕ, ◌≡◌, ◌⊎◌, ◌<◌, ◌≤◌, ◌*◌, ◌^◌, ◌%◌, ap, false, nat_eq, arith}
use kotakpasir.Base.Int.{pos, is_pos}
use kotakpasir.Base.Words.{signed}
use kotakpasir.Api.{seconds}

-- A number of seconds below 2^63 nanoseconds is that time. From there on, up to 2^64, the product
-- wraps around to a time that is not positive.
pub seconds_outcome :
    (n : ℕ)
    → n * 1000000000 < 2 ^ 64
    → ((n * 1000000000 < 2 ^ 63) × (seconds (pos n) ≡ pos (n * 1000000000)))
      ⊎ ((2 ^ 63 ≤ n * 1000000000) × (is_pos (seconds (pos n)) ≡ false))
unfolding seconds signed
seconds_outcome n h =
    let fits : (n * 1000000000) % 2 ^ 64 ≡ n * 1000000000 = omega (arith, h) in
    ground (arith, h, ap signed fits)
