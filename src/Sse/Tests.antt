-- ===== src/Sse/Tests.antt =====
-- A stream of two chunks and an exit, with the payload `0`.
use kotakpasir.Base.{◌≡◌, refl, true, false, none, some, List, [], ◌∷◌, ◌++◌, nat_eq, All, ok}
use kotakpasir.Base.Int.{pos}
use kotakpasir.Sse.{Bytes, Chunk, exit_name, send, write_chunks, cut}
use kotakpasir.Sse.Parse.{Exit, PayloadJson, Sinks, trim_right, parse_sse}
use kotakpasir.Sse.RoundTrip.{IsClean, parse_sse-send}

abbrev done : Exit
done = record { exit_code = pos 0; duration_ms = pos 12 }

abbrev one_exit : PayloadJson
one_exit = record {
  exit_of = λ (text : Bytes). ok done;
  error_of = λ (text : Bytes). "";
  text = λ (text : Bytes). "";
}

abbrev pub open_sinks : Sinks
open_sinks = record { stdout = true; stderr = true; failure = λ (ws : List Chunk). none }

abbrev hello : List Chunk
hello =
    record { to_stderr = false; bytes = b'h' ∷ b'i' ∷ b'\n' ∷ b'y' ∷ b'o' ∷ b'\n' ∷ [] }
    ∷ record { to_stderr = true; bytes = b'!' ∷ [] }
    ∷ []

hello-IsClean : All (λ c. IsClean c.bytes) hello
unfolding cut trim_right nat_eq
hello-IsClean = (
  record { starts = refl; first = refl; others = (refl, (refl, tt)) },
  (record { starts = refl; first = refl; others = tt }, tt),
)

zero-IsClean : IsClean (b'0' ∷ [])
unfolding cut trim_right nat_eq
zero-IsClean = record { starts = refl; first = refl; others = tt }

parse_sse-send_example :
    parse_sse one_exit open_sinks none (write_chunks hello ++ (send exit_name (b'0' ∷ []) ++ []))
    ≡ (record { result = some done; error = none }, hello)
parse_sse-send_example =
    parse_sse-send one_exit open_sinks none hello (b'0' ∷ []) [] done refl refl (λ ws. refl)
      hello-IsClean zero-IsClean refl
