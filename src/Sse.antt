-- ===== src/Sse.antt =====
-- The event stream between server and client: `sseWriter` of internal/api/handlers.go.
-- What is written to the stream is a list of bytes; each method holds the writer's mutex, so each
-- call of `send` is one step.
pub mod Parse
pub mod Lines
pub mod RoundTrip
pub mod Ending
pub mod Tests
use kotakpasir.Base.{
  ℕ, Bool, true, false, Option, none, some, List, [], ◌∷◌, ◌++◌, if◌then◌else◌, ◌==◌, nat_eq,
  is_empty,
}
use kotakpasir.Base.Int.{ℤ}

abbrev pub Bytes : Type 0
Bytes = List ℕ

-- The names of the events.
abbrev pub stdout_name : Bytes
stdout_name = b's' ∷ b't' ∷ b'd' ∷ b'o' ∷ b'u' ∷ b't' ∷ []

abbrev pub stderr_name : Bytes
stderr_name = b's' ∷ b't' ∷ b'd' ∷ b'e' ∷ b'r' ∷ b'r' ∷ []

abbrev pub exit_name : Bytes
exit_name = b'e' ∷ b'x' ∷ b'i' ∷ b't' ∷ []

abbrev pub error_name : Bytes
error_name = b'e' ∷ b'r' ∷ b'r' ∷ b'o' ∷ b'r' ∷ []

-- The prefixes of the lines.
abbrev pub event_prefix : Bytes
event_prefix = b'e' ∷ b'v' ∷ b'e' ∷ b'n' ∷ b't' ∷ b':' ∷ b' ' ∷ []

abbrev pub data_prefix : Bytes
data_prefix = b'd' ∷ b'a' ∷ b't' ∷ b'a' ∷ b':' ∷ b' ' ∷ []

-- What stands before the first line feed, and the parts behind it: `strings.SplitSeq(data, "\n")`.
unfoldable pub cut : Bytes → Bytes × List Bytes
cut [] = ([], [])
cut (c ∷ cs) =
    let (part, parts) = cut cs in if c == b'\n' then ([], part ∷ parts) else (c ∷ part, parts)

-- The loop that writes a `data:` line for each part.
unfoldable pub data_lines : Bytes → List Bytes → Bytes
data_lines part [] = data_prefix ++ (part ++ (b'\n' ∷ []))
data_lines part (next ∷ parts) = data_prefix ++ (part ++ (b'\n' ∷ data_lines next parts))

-- `(*sseWriter).send`: what it writes.
unfoldable pub send : Bytes → Bytes → Bytes
unfolding cut data_lines
send event body =
    let (part, parts) = cut body in
    (if is_empty event then [] else event_prefix ++ (event ++ (b'\n' ∷ [])))
    ++ (data_lines part parts ++ (b'\n' ∷ []))

-- `(*sseTaggedWriter).Write`
unfoldable pub tagged_write : Bytes → Bytes → Bytes
unfolding send
tagged_write event chunk = if is_empty chunk then [] else send event chunk

-- A chunk of output; `to_stderr` tells the stream.
pub record Chunk : Type 0 where
  pub to_stderr : Bool
  pub bytes : Bytes

-- The writes of the two tagged writers of `handleExecStream`.
unfoldable pub write_chunks : List Chunk → Bytes
unfolding tagged_write
write_chunks [] = []
write_chunks (c ∷ cs) =
    tagged_write (if c.to_stderr then stderr_name else stdout_name) c.bytes ++ write_chunks cs
