-- ===== src/Sse/Parse.antt =====
-- pkg/kotakpasir/exec_stream.go: `parseSSE`.
-- The reader is its bytes and the error that it ends with, `none` for the end of the file. A writer
-- is told by whether it takes a write, given all the writes so far. Decoding JSON is a parameter.
use kotakpasir.Base.{
  Bool, true, false, ◌&&◌, ◌||◌, Option, none, some, List, [], ◌∷◌, ◌++◌, String, if◌then◌else◌,
  ◌==◌, nat_eq, string_eq, is_empty, sentinel, message, wrap, Error, Result, ok, err,
}
use kotakpasir.Base.Int.{ℤ}
use kotakpasir.Sse.{
  Bytes, Chunk, stdout_name, stderr_name, exit_name, error_name, event_prefix, data_prefix, cut,
}

unfoldable pub same_bytes : Bytes → Bytes → Bool
same_bytes [] [] = true
same_bytes (x ∷ xs) (y ∷ ys) = x == y && same_bytes xs ys
same_bytes _ _ = false

-- The payload of an `exit` event, in milliseconds.
pub record Exit : Type 0 where
  pub exit_code : ℤ
  pub duration_ms : ℤ

-- `json.Unmarshal` on the payload of an `exit` and of an `error` event (the empty text where that
-- fails), and the text of some bytes.
pub record PayloadJson : Type 0 where
  pub exit_of : Bytes → Result Exit
  pub error_of : Bytes → String
  pub text : Bytes → String

-- The writers of the caller: which are there, and the error of a write.
pub record Sinks : Type 0 where
  pub stdout : Bool
  pub stderr : Bool
  pub failure : List Chunk → Option Error

-- The variables of `parseSSE`, and what has been written, in order.
pub record Parser : Type 0 where
  pub event : Bytes
  pub body : Bytes
  pub result : Option Exit
  pub failed : Option Error
  pub written : List Chunk

-- What `parseSSE` returns.
pub record Returned : Type 0 where
  pub result : Option Exit
  pub error : Option Error

-- `strings.TrimRight(line, "\r\n")`
unfoldable pub trim_right : Bytes → Bytes
trim_right [] = []
trim_right (c ∷ cs) =
    let rest = trim_right cs in if (c == b'\r' || c == b'\n') && is_empty rest then [] else c ∷ rest

-- `strings.HasPrefix` and `strings.TrimPrefix`
unfoldable pub strip_prefix : Bytes → Bytes → Option Bytes
strip_prefix [] line = some line
strip_prefix (c ∷ prefix) [] = none
strip_prefix (c ∷ prefix) (d ∷ line) =
    let rest = strip_prefix prefix line in if c == d then rest else none

-- The lines that `ReadString` returns: a last one without a line feed counts if it is not empty.
unfoldable pub lines_of : Bytes → List Bytes → List Bytes
lines_of part [] = if is_empty part then [] else part ∷ []
lines_of part (next ∷ parts) = part ∷ lines_of next parts

unfoldable pub read_lines : Bytes → List Bytes
unfolding lines_of
read_lines stream = let (part, parts) = cut stream in lines_of part parts

-- A write to one of the caller's writers.
unfoldable pub deliver : Bool → Sinks → Bytes → Parser → Option Error × Parser
deliver to_stderr sinks chunk p =
    let p' = record p {
      written = p.written ++ (record { to_stderr = to_stderr; bytes = chunk } ∷ []);
    } in
    if (if to_stderr then sinks.stderr else sinks.stdout)
    then (sinks.failure p'.written, p')
    else (none, p)

-- The tests behind a flush that went well.
abbrev pub settled : Parser → Option Returned
settled p = elim p.result [
  | some x ↦ some (record { result = some x; error = p.failed })
  | none ↦ elim p.failed [ some e ↦ some (record { result = none; error = some e }) | none ↦ none ]
]

-- The switch on a line that is not empty.
unfoldable pub take_line : Bytes → Parser → Parser
take_line line p = elim (strip_prefix event_prefix line) [
  | some name ↦ record p { event = p.event ++ name }
  | none ↦ elim (strip_prefix data_prefix line) [
    | some part ↦ record p { body = if is_empty p.body then part else p.body ++ (b'\n' ∷ part) }
    | none ↦ p
  ]
]

-- What follows a flush: the error, the outcome, or the rest of the loop.
abbrev pub after_flush : Option Error × Parser → (Parser → Returned × Parser) → Returned × Parser
after_flush (some e, p) rest = (record { result = none; error = some e }, p)
after_flush (none, p) rest = elim (settled p) [ some r ↦ (r, p) | none ↦ rest p ]

abbrev pub fresh : Parser
fresh = record { event = []; body = []; result = none; failed = none; written = [] }

module _ (j : PayloadJson) (sinks : Sinks) where
  -- The closure `flush`.
  unfoldable pub flush : Parser → Option Error × Parser
  unfolding deliver
  flush p =
      let cleared = record p { event = []; body = [] } in
      if is_empty p.event && is_empty p.body
      then (none, cleared)
      else if same_bytes p.event stdout_name
      then deliver false sinks p.body cleared
      else if same_bytes p.event stderr_name
      then deliver true sinks p.body cleared
      else if same_bytes p.event exit_name
      then (elim (j.exit_of p.body) [
        | err e ↦ (some (wrap "parse exit event: %w" [] e), cleared)
        | ok x ↦ (none, record cleared { result = some x })
      ])
      else if same_bytes p.event error_name
      then (let told = j.error_of p.body in
          (
            none,
            record cleared {
              failed = some (
                  message "server stream error: %s"
                    ((if told == "" then j.text p.body else told) ∷ []));
            },
          ))
      else (none, cleared)

  -- The end of the reader.
  unfoldable pub at_end : Option Error → Parser → Returned × Parser
  at_end (some e) p = (record { result = none; error = some e }, p)
  at_end none p =
      after_flush (flush p)
        (λ p'. (record { result = none; error = some (sentinel "unexpected EOF") }, p'))

  -- The loop over the lines.
  unfoldable pub loop : Option Error → List Bytes → Parser → Returned × Parser
  unfolding at_end
  loop ended [] p = at_end ended p
  loop ended (line ∷ lines) p =
      let trimmed = trim_right line in
      elim (is_empty trimmed) [
        | true ↦ after_flush (flush p) (loop ended lines)
        | false ↦ loop ended lines (take_line trimmed p)
      ]

  -- `parseSSE`: what it returns, and what it has written.
  unfoldable pub parse_sse : Option Error → Bytes → Returned × List Chunk
  unfolding loop read_lines
  parse_sse ended stream = let (r, p) = loop ended (read_lines stream) fresh in (r, p.written)
