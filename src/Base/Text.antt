-- ===== src/Base/Text.antt =====
-- What the program uses of `strings`: trimming, lower case, prefixes and splitting at commas.
-- The tables of `unicode.IsSpace` and `unicode.ToLower` are parameters.
use Prim.Native.Char.{Char, code}
use Prim.Native.String.{String, ◌++◌ as ◌<>◌}
use mathlib.Core.Path.{◌≡◌, refl, ap, sym, ◌∙◌}
use mathlib.Core.Bool.{Bool, true, false, ◌&&◌, ◌||◌}
use mathlib.Core.Option.{Option, none, some}
use mathlib.Core.List.{List, [], ◌∷◌}
use mathlib.Core.Logic.{inl, inr}
use native.Mathlib.Omega.{arith}
use text.Mathlib.TextEquality.{Char-path}
use text.Mathlib.TextLemmas.{cons-append, nil-append}
use kotakpasir.Base.Equality.{eq_of_==, Bool-cases, ◌==◌, nat_eq, if◌then◌else◌}

pub record Chars : Type 0 where
  pub is_space : Char → Bool
  pub lower : Char → Char

abbrev pub is_blank : String → Bool
is_blank String.[] = true
is_blank (String.◌∷◌ c s) = false

module _ (chars : Chars) where
  -- `strings.ToLower`
  unfoldable pub to_lower : String → String
  to_lower String.[] = String.[]
  to_lower (String.◌∷◌ c s) = String.◌∷◌ (chars.lower c) (to_lower s)

  unfoldable pub trim_start : String → String
  trim_start String.[] = String.[]
  trim_start (String.◌∷◌ c s) =
      let rest = trim_start s in if chars.is_space c then rest else String.◌∷◌ c s

  unfoldable pub trim_end : String → String
  trim_end String.[] = String.[]
  trim_end (String.◌∷◌ c s) =
      let rest = trim_end s in
      if chars.is_space c && is_blank rest then String.[] else String.◌∷◌ c rest

  -- `strings.TrimSpace`
  unfoldable pub trim_space : String → String
  unfolding trim_start trim_end
  trim_space s = trim_start (trim_end s)

-- `strings.Split(s, ",")`: the part before the first comma, and the parts behind it.
unfoldable pub cut_comma : String → String × List String
cut_comma String.[] = (String.[], [])
cut_comma (String.◌∷◌ c s) =
    let (part, parts) = cut_comma s in
    if code c == b',' then (String.[], part ∷ parts) else (String.◌∷◌ c part, parts)

-- `strings.HasPrefix` and `strings.TrimPrefix`
unfoldable pub strip_text : String → String → Option String
strip_text String.[] s = some s
strip_text (String.◌∷◌ c p) String.[] = none
strip_text (String.◌∷◌ c p) (String.◌∷◌ d s) =
    let rest = strip_text p s in if code c == code d then rest else none

pub strip_text-append : (p s : String) → strip_text p (p <> s) ≡ some s
unfolding strip_text
strip_text-append String.[] s = ap some (nil-append s)
strip_text-append (String.◌∷◌ c p) s =
    ap (strip_text (String.◌∷◌ c p)) (cons-append c p s) ∙ ground (arith, strip_text-append p s)

unfoldable pub has_comma : String → Bool
has_comma String.[] = false
has_comma (String.◌∷◌ c s) = code c == b',' || has_comma s

pub cut_comma_whole : (s : String) → has_comma s ≡ false → cut_comma s ≡ (s, [])
unfolding cut_comma has_comma
cut_comma_whole String.[] h = refl
cut_comma_whole (String.◌∷◌ c s) h = ground (arith, h, cut_comma_whole s)

pub cut_comma_part :
    (s rest : String)
    → has_comma s ≡ false
    → cut_comma (s <> ("," <> rest)) ≡ (s, (cut_comma rest).0 ∷ (cut_comma rest).1)
unfolding cut_comma has_comma nat_eq
cut_comma_part String.[] rest h = ap cut_comma (
    nil-append ("," <> rest)
    ∙ cons-append "," String.[] rest
    ∙ ap (String.◌∷◌ ",") (nil-append rest))
cut_comma_part (String.◌∷◌ c s) rest h =
    ap cut_comma (cons-append c s ("," <> rest)) ∙ ground (arith, h, cut_comma_part s rest)

-- `strings.Contains`
unfoldable pub contains_text : String → String → Bool
unfolding strip_text
contains_text String.[] sub = is_blank sub
contains_text (String.◌∷◌ c s) sub =
    let later = contains_text s sub in
    elim (strip_text sub (String.◌∷◌ c s)) [ some _ ↦ true | none ↦ later ]

pub strip_text-some : (p s rest : String) → strip_text p s ≡ some rest → s ≡ p <> rest
unfolding strip_text
strip_text-some String.[] s rest h = ground (arith, h, nil-append rest)
strip_text-some (String.◌∷◌ c p) String.[] rest h = cc h
strip_text-some (String.◌∷◌ c p) (String.◌∷◌ d s) rest h = elim (Bool-cases (code c == code d)) [
  | inl same ↦
      ap (λ x. String.◌∷◌ x s) (sym (Char-path c d (eq_of_== (code c) (code d) same)))
      ∙ ap (String.◌∷◌ c) (strip_text-some p s rest (ground (arith, h, same)))
      ∙ sym (cons-append c p rest)
  | inr differ ↦ ground (arith, h, differ)
]
