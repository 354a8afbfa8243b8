-- ===== src/Sse/RoundTrip.antt =====
-- The client gets from the event stream what the server put in.
use kotakpasir.Base.{
  ℕ, ◌≡◌, refl, ap, sym, ◌∙◌, Bool, true, false, Option, none, some, List, [], ◌∷◌, ◌++◌, map,
  if◌then◌else◌, nat_eq, is_empty, All, arith, Error, ok,
}
use mathlib.Core.List.{append_assoc, append-nil}
use kotakpasir.Sse.{
  Bytes, Chunk, stdout_name, stderr_name, exit_name, data_prefix, cut, send, tagged_write,
  write_chunks,
}
use kotakpasir.Sse.Parse.{
  Parser, Returned, Exit, PayloadJson, Sinks, trim_right, strip_prefix, read_lines, same_bytes,
  deliver, flush, take_line, after_flush, loop, fresh, parse_sse,
}
use kotakpasir.Sse.Lines.{event_lines, read_lines-send}

-- The text that the client joins from the lines of an event.
gather : Bytes → List Bytes → Bytes
gather body [] = body
gather body (part ∷ parts) =
    let line = trim_right part in
    gather (if is_empty body then line else body ++ (b'\n' ∷ line)) parts

unfoldable pub received : Bytes → Bytes
unfolding gather
received body = let (part, parts) = cut body in gather [] (part ∷ parts)

-- A text that does not start with a line feed, and in which no carriage return stands before a
-- line feed or at the end.
pub record IsClean (body : Bytes) : Type 0 where
  pub starts : is_empty (cut body).0 ≡ false
  pub first : trim_right (cut body).0 ≡ (cut body).0
  pub others : All (λ l. trim_right l ≡ l) (cut body).1

-- The parts behind the first, with the line feeds in front of them.
flat : List Bytes → Bytes
flat [] = []
flat (part ∷ parts) = b'\n' ∷ (part ++ flat parts)

flat-cut : (body : Bytes) → (cut body).0 ++ flat (cut body).1 ≡ body
unfolding cut flat
flat-cut [] = refl
flat-cut (c ∷ body) = ground (arith, flat-cut body)

gather-flat :
    (body : Bytes) (parts : List Bytes)
    → is_empty body ≡ false
    → All (λ l. trim_right l ≡ l) parts
    → gather body parts ≡ body ++ flat parts
unfolding gather flat
gather-flat body [] h hs = sym (append-nil body)
gather-flat [] (part ∷ parts) h hs = cc
gather-flat (c ∷ body) (part ∷ parts) h (same, hs) = rw same (
    gather-flat (c ∷ (body ++ (b'\n' ∷ part))) parts refl hs
    ∙ ap (◌∷◌ c) (append_assoc body (b'\n' ∷ part) (flat parts)))

received-IsClean : (body : Bytes) → IsClean body → received body ≡ body
unfolding received gather
received-IsClean body clean =
    ap (λ t. gather t (cut body).1) clean.first
    ∙ gather-flat (cut body).0 (cut body).1 clean.starts clean.others
    ∙ flat-cut body

module _ (j : PayloadJson) (sinks : Sinks) (ended : Option Error) where
  loop_parts :
      (parts rest : List Bytes) (p : Parser)
      → loop j sinks ended (map (λ l. data_prefix ++ l) parts ++ rest) p
        ≡ loop j sinks ended rest (record p { body = gather p.body parts })
  unfolding loop take_line trim_right strip_prefix nat_eq gather
  loop_parts [] rest p = refl
  loop_parts (part ∷ parts) rest p = loop_parts parts rest (record p {
    body = if is_empty p.body then trim_right part else p.body ++ (b'\n' ∷ trim_right part);
  })

  -- An event is flushed with its name and the joined text.
  loop_event :
      (name body : Bytes) (rest : List Bytes) (p : Parser)
      → trim_right name ≡ name
      → loop j sinks ended (event_lines name body rest) p
        ≡ after_flush
            (flush j sinks (record p {
              event = p.event ++ name;
              body = gather p.body ((cut body).0 ∷ (cut body).1);
            }))
            (loop j sinks ended rest)
  unfolding loop take_line strip_prefix trim_right nat_eq
  loop_event name body rest p h =
      let parts = map (λ l. data_prefix ++ l) ((cut body).0 ∷ (cut body).1) in
      ap (λ t. loop j sinks ended (parts ++ ([] ∷ rest)) (record p { event = p.event ++ t })) h
      ∙ loop_parts ((cut body).0 ∷ (cut body).1) ([] ∷ rest) (record p { event = p.event ++ name })

-- Between two events, with these writes done.
abbrev at_rest : List Chunk → Parser
at_rest ws = record { event = []; body = []; result = none; failed = none; written = ws }

module _ (j : PayloadJson) (sinks : Sinks) (ended : Option Error) (out : sinks.stdout ≡ true)
    (errs : sinks.stderr ≡ true) (quiet : (ws : List Chunk) → sinks.failure ws ≡ none) where
  deliver_quiet :
      (to_stderr : Bool) (chunk : Bytes) (p : Parser)
      → deliver to_stderr sinks chunk p ≡ (
        none,
        record p { written = p.written ++ (record { to_stderr = to_stderr; bytes = chunk } ∷ []) },
      )
  unfolding deliver
  deliver_quiet to_stderr chunk p = ground (
    arith,
    out,
    errs,
    quiet (p.written ++ (record { to_stderr = to_stderr; bytes = chunk } ∷ [])),
  )

  loop_sent :
      (to_stderr : Bool) (c : ℕ) (cs : Bytes) (rest : List Bytes) (ws : List Chunk)
      → IsClean (c ∷ cs)
      → loop j sinks ended
          (event_lines (if to_stderr then stderr_name else stdout_name) (c ∷ cs) rest)
          (at_rest ws)
        ≡ loop j sinks ended rest
            (at_rest (ws ++ (record { to_stderr = to_stderr; bytes = c ∷ cs } ∷ [])))
  unfolding flush same_bytes received trim_right nat_eq
  loop_sent false c cs rest ws clean =
      loop_event j sinks ended stdout_name (c ∷ cs) rest (at_rest ws) refl
      ∙ ap (λ t. after_flush (deliver false sinks t (at_rest ws)) (loop j sinks ended rest))
          (received-IsClean (c ∷ cs) clean)
      ∙ ap (λ r. after_flush r (loop j sinks ended rest))
          (deliver_quiet false (c ∷ cs) (at_rest ws))
  loop_sent true c cs rest ws clean =
      loop_event j sinks ended stderr_name (c ∷ cs) rest (at_rest ws) refl
      ∙ ap (λ t. after_flush (deliver true sinks t (at_rest ws)) (loop j sinks ended rest))
          (received-IsClean (c ∷ cs) clean)
      ∙ ap (λ r. after_flush r (loop j sinks ended rest)) (deliver_quiet true (c ∷ cs) (at_rest ws))

  loop_tagged :
      (to_stderr : Bool) (chunk rest : Bytes) (ws : List Chunk)
      → IsClean chunk
      → loop j sinks ended
          (read_lines (tagged_write (if to_stderr then stderr_name else stdout_name) chunk ++ rest))
          (at_rest ws)
        ≡ loop j sinks ended
            (read_lines rest)
            (at_rest (ws ++ (record { to_stderr = to_stderr; bytes = chunk } ∷ [])))
  unfolding tagged_write cut nat_eq
  loop_tagged to_stderr [] rest ws clean = absurd (ground (arith, clean.starts))
  loop_tagged false (c ∷ cs) rest ws clean =
      ap (λ ls. loop j sinks ended ls (at_rest ws))
        (read_lines-send b's' (b't' ∷ b'd' ∷ b'o' ∷ b'u' ∷ b't' ∷ []) (c ∷ cs) rest refl)
      ∙ loop_sent false c cs (read_lines rest) ws clean
  loop_tagged true (c ∷ cs) rest ws clean =
      ap (λ ls. loop j sinks ended ls (at_rest ws))
        (read_lines-send b's' (b't' ∷ b'd' ∷ b'e' ∷ b'r' ∷ b'r' ∷ []) (c ∷ cs) rest refl)
      ∙ loop_sent true c cs (read_lines rest) ws clean

  loop_chunks :
      (cs : List Chunk) (rest : Bytes) (ws : List Chunk)
      → All (λ c. IsClean c.bytes) cs
      → loop j sinks ended (read_lines (write_chunks cs ++ rest)) (at_rest ws)
        ≡ loop j sinks ended (read_lines rest) (at_rest (ws ++ cs))
  unfolding write_chunks
  loop_chunks [] rest ws h = rw append-nil refl
  loop_chunks (c ∷ cs) rest ws (h, hs) =
      ap (λ t. loop j sinks ended (read_lines t) (at_rest ws))
        (append_assoc _ (write_chunks cs) rest)
      ∙ loop_tagged c.to_stderr c.bytes (write_chunks cs ++ rest) ws h
      ∙ loop_chunks cs rest (ws ++ (c ∷ [])) hs
      ∙ ap (λ t. loop j sinks ended (read_lines rest) (at_rest t)) (append_assoc ws (c ∷ []) cs)

  loop_exit :
      (payload : Bytes) (x : Exit) (rest : Bytes) (ws : List Chunk)
      → IsClean payload
      → j.exit_of payload ≡ ok x
      → loop j sinks ended (read_lines (send exit_name payload ++ rest)) (at_rest ws)
        ≡ (record { result = some x; error = none }, record (at_rest ws) { result = some x })
  unfolding flush same_bytes received trim_right nat_eq
  loop_exit payload x rest ws clean h =
      ap (λ ls. loop j sinks ended ls (at_rest ws))
        (read_lines-send b'e' (b'x' ∷ b'i' ∷ b't' ∷ []) payload rest refl)
      ∙ loop_event j sinks ended exit_name payload (read_lines rest) (at_rest ws) refl
      ∙ ground (arith, ap j.exit_of (received-IsClean payload clean) ∙ h)

-- What the server streams, the client gets: where the writers are there and take every write, and
-- no chunk of output starts with a line feed or has a carriage return at the end of a line, the
-- chunks come out on their streams in their order, and then the exit code and the duration, whatever
-- stands behind them in the stream.
pub parse_sse-send :
    (j : PayloadJson) (sinks : Sinks) (ended : Option Error) (cs : List Chunk)
    (payload rest : Bytes) (x : Exit)
    → sinks.stdout ≡ true
    → sinks.stderr ≡ true
    → ((ws : List Chunk) → sinks.failure ws ≡ none)
    → All (λ c. IsClean c.bytes) cs
    → IsClean payload
    → j.exit_of payload ≡ ok x
    → parse_sse j sinks ended (write_chunks cs ++ (send exit_name payload ++ rest))
      ≡ (record { result = some x; error = none }, cs)
unfolding parse_sse
parse_sse-send j sinks ended cs payload rest x out errs quiet clean clean' h =
    ap (λ r. (r.0, r.1.written))
      (loop_chunks j sinks ended out errs quiet cs (send exit_name payload ++ rest) [] clean
        ∙ loop_exit j sinks ended out errs quiet payload x rest cs clean' h)

-- A line feed at the start of a chunk is lost: whatever follows, the client returns and writes the
-- same as if the server had sent the chunk without it.
pub parse_sse-send_newline :
    (j : PayloadJson) (sinks : Sinks) (ended : Option Error) (chunk rest : Bytes)
    → parse_sse j sinks ended (send stdout_name (b'\n' ∷ chunk) ++ rest)
      ≡ parse_sse j sinks ended (send stdout_name chunk ++ rest)
unfolding parse_sse cut gather nat_eq trim_right
parse_sse-send_newline j sinks ended chunk rest =
    let name_tail = b't' ∷ b'd' ∷ b'o' ∷ b'u' ∷ b't' ∷ [] in
    let returned : List Bytes → Returned × List Chunk =
      λ ls. ((loop j sinks ended ls fresh).0, (loop j sinks ended ls fresh).1.written) in
    ap returned (read_lines-send b's' name_tail (b'\n' ∷ chunk) rest refl)
    ∙ ap (λ r. (r.0, r.1.written))
        (loop_event j sinks ended stdout_name (b'\n' ∷ chunk) (read_lines rest) fresh refl
          ∙ sym (loop_event j sinks ended stdout_name chunk (read_lines rest) fresh refl))
    ∙ sym (ap returned (read_lines-send b's' name_tail chunk rest refl))
