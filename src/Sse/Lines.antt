-- ===== src/Sse/Lines.antt =====
-- The lines that the client reads are those that the server wrote.
use kotakpasir.Base.{
  ℕ, ◌≡◌, refl, ap, ◌∙◌, false, List, [], ◌∷◌, ◌++◌, map, nat_eq, contains, All, arith,
}
use mathlib.Core.List.{append_assoc}
use kotakpasir.Sse.{Bytes, event_prefix, data_prefix, cut, data_lines, send}
use kotakpasir.Sse.Parse.{read_lines}

-- No line feed stands in a line.
abbrev pub IsLine : Bytes → Type 0
IsLine line = contains line b'\n' ≡ false

pub cut_line :
    (line rest : Bytes)
    → IsLine line
    → cut (line ++ (b'\n' ∷ rest)) ≡ (line, (cut rest).0 ∷ (cut rest).1)
unfolding cut
cut_line [] rest h = ground arith
cut_line (c ∷ line) rest h = ground (arith, cut_line line rest)

pub cut-IsLine : (body : Bytes) → IsLine (cut body).0 × All IsLine (cut body).1
unfolding cut
cut-IsLine [] = ground arith
cut-IsLine (c ∷ body) = ground (arith, cut-IsLine body)

pub read_lines-cons :
    (line rest : Bytes) → IsLine line → read_lines (line ++ (b'\n' ∷ rest)) ≡ line ∷ read_lines rest
unfolding read_lines
read_lines-cons line rest h = rw (cut_line line rest h) refl

contains_prefix : (line : Bytes) → IsLine line → IsLine (data_prefix ++ line)
contains_prefix line h = ground (arith, h)

read_lines-data_lines :
    (part : Bytes) (parts : List Bytes) (rest : Bytes)
    → IsLine part
    → All IsLine parts
    → read_lines (data_lines part parts ++ (b'\n' ∷ rest))
      ≡ map (λ l. data_prefix ++ l) (part ∷ parts) ++ ([] ∷ read_lines rest)
unfolding data_lines
read_lines-data_lines part [] rest h hs =
    ap (λ t. read_lines (data_prefix ++ t)) (append_assoc part (b'\n' ∷ []) (b'\n' ∷ rest))
    ∙ read_lines-cons (data_prefix ++ part) (b'\n' ∷ rest) (contains_prefix part h)
    ∙ ap (◌∷◌ (data_prefix ++ part)) (read_lines-cons [] rest refl)
read_lines-data_lines part (next ∷ parts) rest h (h', hs) =
    let later = data_lines next parts in
    ap (λ t. read_lines (data_prefix ++ t)) (append_assoc part (b'\n' ∷ later) (b'\n' ∷ rest))
    ∙ read_lines-cons (data_prefix ++ part) (later ++ (b'\n' ∷ rest)) (contains_prefix part h)
    ∙ ap (◌∷◌ (data_prefix ++ part)) (read_lines-data_lines next parts rest h' hs)

-- The lines of one event.
abbrev pub event_lines : Bytes → Bytes → List Bytes → List Bytes
event_lines event body rest =
    (event_prefix ++ event)
    ∷ (map (λ l. data_prefix ++ l) ((cut body).0 ∷ (cut body).1) ++ ([] ∷ rest))

-- An event with a name of one line is read as its lines, whatever is sent behind it.
pub read_lines-send :
    (c : ℕ) (event body rest : Bytes)
    → IsLine (c ∷ event)
    → read_lines (send (c ∷ event) body ++ rest) ≡ event_lines (c ∷ event) body (read_lines rest)
unfolding send
read_lines-send c event body rest h =
    let named = c ∷ event in
    let (part, parts) = cut body in
    let (first, others) = cut-IsLine body in
    let tail = data_lines part parts in
    ap read_lines (simp append_assoc)
    ∙ read_lines-cons (event_prefix ++ named) (tail ++ (b'\n' ∷ rest)) (ground (arith, h))
    ∙ ap (◌∷◌ (event_prefix ++ named)) (read_lines-data_lines part parts rest first others)
