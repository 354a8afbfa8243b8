-- ===== src/Client/Deadlines.antt =====
-- The time to live that a client asks for, as the manager gets it.
use kotakpasir.Base.{ℕ, ◌≡◌, ◌<◌, ◌*◌, ◌/◌, ◌^◌, ◌∙◌, ap, arith}
use kotakpasir.Base.Int.{pos}
use kotakpasir.Api.{seconds}
use kotakpasir.Api.Handlers.{options_of}
use kotakpasir.Api.Deadlines.{seconds_outcome}
use kotakpasir.Client.{CreateOptions, request_of, ttl_seconds}

-- The manager gets the client's time to live cut to whole seconds: one below a second is none.
pub ttl_arrives :
    (opts : CreateOptions) (t : ℕ)
    → opts.ttl ≡ pos t
    → t < 2 ^ 63
    → (options_of (request_of opts)).ttl ≡ pos (t / 1000000000 * 1000000000)
unfolding request_of ttl_seconds
ttl_arrives opts t h small =
    ap (λ z. seconds (ttl_seconds z)) h
    ∙ ground (arith, seconds_outcome (t / 1000000000) (omega (arith, small)), small)
