-- ===== src/Sse/Ending.antt =====
-- `parseSSE` never returns a nil result with a nil error.
use kotakpasir.Base.{
  ◌≡◌, ◌⊎◌, refl, inl, inr, Option, none, some, List, [], ◌∷◌, Error, arith, Bool-cases,
  Option-cases, is_empty,
}
use kotakpasir.Sse.{Bytes}
use kotakpasir.Sse.Parse.{
  Exit, PayloadJson, Sinks, Parser, Returned, settled, after_flush, flush, at_end, loop, trim_right,
  take_line, parse_sse,
}

-- There is a result or an error.
abbrev pub IsTold : Returned → Type 0
IsTold r = ((x : Exit) × (r.result ≡ some x)) ⊎ ((e : Error) × (r.error ≡ some e))

settled-IsTold : (p : Parser) (r : Returned) → settled p ≡ some r → IsTold r
settled-IsTold p r h = elim (Option-cases p.result) [
  | inr (x, e) ↦ inl (x, ground (arith, h, e))
  | inl e ↦ elim (Option-cases p.failed) [
    | inr (x, e') ↦ inr (x, ground (arith, h, e, e'))
    | inl e' ↦ ground (arith, h, e, e')
  ]
]

after_flush-IsTold :
    (f : Option Error × Parser) (rest : Parser → Returned × Parser)
    → ((p : Parser) → IsTold (rest p).0)
    → IsTold (after_flush f rest).0
after_flush-IsTold (some e, p) rest h = inr (e, refl)
after_flush-IsTold (none, p) rest h = elim (Option-cases (settled p)) [
  | inl e ↦ rw (e, after_flush) (h p)
  | inr (r, e) ↦ rw (e, after_flush) (settled-IsTold p r e)
]

module _ (j : PayloadJson) (sinks : Sinks) where
  at_end-IsTold : (ended : Option Error) (p : Parser) → IsTold (at_end j sinks ended p).0
  unfolding at_end
  at_end-IsTold (some e) p = inr (e, refl)
  at_end-IsTold none p = after_flush-IsTold (flush j sinks p) _ (λ p'. inr (_, refl))

  loop-IsTold :
      (ended : Option Error) (lines : List Bytes) (p : Parser)
      → IsTold (loop j sinks ended lines p).0
  unfolding loop
  loop-IsTold ended [] p = at_end-IsTold ended p
  loop-IsTold ended (line ∷ lines) p = elim (Bool-cases (is_empty (trim_right line))) [
    | inl e ↦
        rw (e, loop)
          (after_flush-IsTold (flush j sinks p) (loop j sinks ended lines)
            (loop-IsTold ended lines))
    | inr e ↦ rw (e, loop) (loop-IsTold ended lines (take_line (trim_right line) p))
  ]

  -- `parseSSE` returns a result or an error, whatever the stream holds.
  pub parse_sse-IsTold :
      (ended : Option Error) (stream : Bytes) → IsTold (parse_sse j sinks ended stream).0
  unfolding parse_sse
  parse_sse-IsTold ended stream = loop-IsTold ended _ _
