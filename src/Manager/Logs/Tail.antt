-- ===== src/Manager/Logs/Tail.antt =====
-- How much `tailLines` keeps.
use kotakpasir.Base.{
  ℕ, zero, suc, ◌+◌, ◌≤◌, ◌<◌, ◌≡◌, refl, ap, ◌∙◌, ◌⊎◌, inl, inr, true, List, [], ◌∷◌, ◌++◌, leb,
  reverse, arith, Bool-cases, subst,
}
use kotakpasir.Base.Int.{ℤ, pos, negsuc, is_pos, to_ℕ}
use kotakpasir.LogBuf.{Entry}
use kotakpasir.Manager.Logs.{newlines, tail_loop, tail_lines}
use mathlib.Core.List.{append_assoc, append-nil, reverse-cons, reverse-reverse}

-- The line feeds in entries.
abbrev pub line_feeds : List Entry → ℕ
line_feeds [] = 0
line_feeds (e ∷ es) = newlines e.bytes + line_feeds es

abbrev pub tail : List Entry → List Entry
tail [] = []
tail (e ∷ es) = es

-- `out` is the shortest end of `snap` with `n` line feeds, or all of it where there are fewer.
pub record IsTail (n : ℕ) (snap out : List Entry) : Type 0 where
  pub dropped : List Entry
  pub split : snap ≡ dropped ++ out
  pub enough : (n ≤ line_feeds out) ⊎ (dropped ≡ [])
  pub shortest : line_feeds (tail out) < n

line_feeds-tail : (es : List Entry) → line_feeds (tail es) ≤ line_feeds es
line_feeds-tail [] = omega arith
line_feeds-tail (e ∷ es) = omega arith

tail_loop-IsTail :
    (n count : ℕ) (before kept : List Entry)
    → count ≡ line_feeds kept
    → count < n
    → IsTail n (reverse before ++ kept) (tail_loop n count before kept)
unfolding tail_loop
tail_loop-IsTail n count [] kept c few = record {
  dropped = [];
  split = refl;
  enough = inr refl;
  shortest = omega (arith, line_feeds-tail kept);
}
tail_loop-IsTail n count (e ∷ before) kept c few =
    let moved : reverse (e ∷ before) ++ kept ≡ reverse before ++ (e ∷ kept) =
      ap (λ l. l ++ kept) (reverse-cons e before) ∙ append_assoc (reverse before) (e ∷ []) kept in
    elim (Bool-cases (leb n (count + newlines e.bytes))) [
      | inl enough ↦
          rw (moved, enough)
            (record {
              dropped = reverse before;
              split = refl;
              enough = inl (ground arith);
              shortest = omega arith;
            })
      | inr short ↦
          rw (moved, short)
            (tail_loop-IsTail n (count + newlines e.bytes) before (e ∷ kept) (omega arith)
              (ground arith))
    ]

-- With a positive number `n`, `tailLines` returns the shortest end of the entries that has at least
-- `n` line feeds, and everything when there are fewer; so it may return more than `n` lines.
pub tail_lines-IsTail :
    (n : ℤ) (snap : List Entry) → is_pos n ≡ true → IsTail (to_ℕ n) snap (tail_lines n snap)
unfolding tail_lines
tail_lines-IsTail (pos zero) snap h = cc
tail_lines-IsTail (negsuc k) snap h = cc
tail_lines-IsTail (pos (suc k)) [] h = record {
  dropped = [];
  split = refl;
  enough = inr refl;
  shortest = omega arith;
}
tail_lines-IsTail (pos (suc k)) (e ∷ es) h =
    subst (λ (l : List Entry). IsTail (suc k) l (tail_lines (pos (suc k)) (e ∷ es)))
      (append-nil (reverse (reverse (e ∷ es))) ∙ reverse-reverse (e ∷ es))
      (tail_loop-IsTail (suc k) 0 (reverse (e ∷ es)) [] refl (omega arith))
