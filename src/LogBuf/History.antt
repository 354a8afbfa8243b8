-- ===== src/LogBuf/History.antt =====
-- What a buffer holds after any history of writes.
use kotakpasir.Base.{
  ℕ, ◌+◌, ◌≤◌, ◌<◌, ◌≡◌, refl, sym, ap, subst, ◌∙◌, inl, inr, true, false, List, [], ◌∷◌, ◌++◌,
  length, is_empty, if◌then◌else◌, arith, Bool-cases,
}
use kotakpasir.Base.Int.{ℤ, is_pos, to_ℕ}
use kotakpasir.LogBuf.{Stream, Entry, Buffer, new, evict, append, write}
use kotakpasir.LogBuf.Eviction.{
  total, total-append, evict_counted, evicted, evict_split, evict_fits, evict_longest,
  nil_of_append, snoc_split, end_of_end, evict_oversized,
}
use mathlib.Core.List.{append_assoc, append-nil}

pub record Chunk : Type 0 where
  pub stream : Stream
  pub bytes : List ℕ
  pub at : ℕ

abbrev pub entry : Chunk → Entry
entry c = record { stream = c.stream; bytes = c.bytes; at = c.at }

-- The entries of a history: empty chunks make none.
abbrev pub history : List Chunk → List Entry
history [] = []
history (c ∷ cs) = let rest = history cs in if is_empty c.bytes then rest else entry c ∷ rest

unfoldable pub write_all : Buffer → List Chunk → Buffer
write_all b [] = b
write_all b (c ∷ cs) = write_all (write c.stream c.bytes c.at b) cs

-- `kept` is the longest end of `all` that fits in `max` bytes.
pub record IsNewest (max : ℕ) (all kept : List Entry) : Type 0 where
  pub dropped : List Entry
  pub split : all ≡ dropped ++ kept
  pub fits : total kept ≤ max
  pub longest : (xs ys : List Entry) → all ≡ xs ++ ys → total ys ≤ max → length ys ≤ length kept

-- The byte count is right, and what is kept is the end of the history.
pub record IsAfter (all : List Entry) (b : Buffer) : Type 0 where
  pub counted : b.bytes ≡ total b.entries
  pub newest : IsNewest (to_ℕ b.max) all b.entries

append-IsNewest :
    (max bytes : ℕ) (all kept : List Entry) (e : Entry)
    → bytes ≡ total (kept ++ (e ∷ []))
    → IsNewest max all kept
    → IsNewest max (all ++ (e ∷ [])) (evict max bytes (kept ++ (e ∷ []))).1
append-IsNewest max bytes all kept e b n = record {
  dropped = n.dropped ++ evicted max bytes (kept ++ (e ∷ []));
  split =
      ap (λ l. l ++ (e ∷ [])) n.split
      ∙ append_assoc n.dropped kept (e ∷ [])
      ∙ ap (◌++◌ n.dropped) (evict_split max bytes (kept ++ (e ∷ [])))
      ∙ sym (append_assoc n.dropped _ _);
  fits = evict_fits max bytes (kept ++ (e ∷ [])) b;
  longest = λ xs ys h fit. elim (snoc_split all xs ys e h) [
    | inl nothing ↦ rw nothing (omega arith)
    | inr (zs, is_snoc, rest) ↦
        let shorter : length zs ≤ length kept =
          n.longest xs zs rest (omega (arith, ap total is_snoc, total-append zs (e ∷ []), fit)) in
        let (front, inside) = end_of_end n.dropped kept xs zs (sym n.split ∙ rest) shorter in
        evict_longest max bytes (kept ++ (e ∷ [])) front ys b
          (ap (λ l. l ++ (e ∷ [])) inside
            ∙ append_assoc front zs (e ∷ [])
            ∙ ap (◌++◌ front) (sym is_snoc))
          fit
  ];
}

append-IsAfter :
    (b : Buffer) (all : List Entry) (e : Entry)
    → IsAfter all b
    → IsAfter (all ++ (e ∷ [])) (append b e)
unfolding append
append-IsAfter b all e a =
    let sum : b.bytes + length e.bytes ≡ total (b.entries ++ (e ∷ [])) =
      omega (arith, a.counted, total-append b.entries (e ∷ [])) in
    record {
      counted = evict_counted (to_ℕ b.max) (b.bytes + length e.bytes) (b.entries ++ (e ∷ [])) sum;
      newest = append-IsNewest (to_ℕ b.max) _ all b.entries e sum a.newest;
    }

write-IsAfter :
    (c : Chunk) (b : Buffer) (all : List Entry)
    → is_pos b.max ≡ true
    → IsAfter all b
    → IsAfter (all ++ history (c ∷ [])) (write c.stream c.bytes c.at b)
unfolding write
write-IsAfter c b all on a = elim (Bool-cases (is_empty c.bytes)) [
  | inl empty ↦ rw (on, empty) (rw append-nil a)
  | inr full ↦ rw (on, full) (append-IsAfter b all (entry c) a)
]

pub write_max : (c : Chunk) (b : Buffer) → (write c.stream c.bytes c.at b).max ≡ b.max
unfolding write append
write_max c b = ground arith

history-cons : (c : Chunk) (cs : List Chunk) → history (c ∷ cs) ≡ history (c ∷ []) ++ history cs
history-cons c cs = ground arith

write_all-IsAfter :
    (cs : List Chunk) (b : Buffer) (all : List Entry)
    → is_pos b.max ≡ true
    → IsAfter all b
    → IsAfter (all ++ history cs) (write_all b cs)
unfolding write_all
write_all-IsAfter [] b all on a = rw append-nil a
write_all-IsAfter (c ∷ cs) b all on a =
    rw (history-cons c cs, ← append_assoc)
      (write_all-IsAfter cs _ _ (ap is_pos (write_max c b) ∙ on) (write-IsAfter c b all on a))

write_all_max : (cs : List Chunk) (b : Buffer) → (write_all b cs).max ≡ b.max
unfolding write_all
write_all_max [] b = refl
write_all_max (c ∷ cs) b = write_all_max cs _ ∙ write_max c b

new_max : (max : ℤ) → (new max).max ≡ max
unfolding new
new_max max = refl

new_on : (max : ℤ) → is_pos max ≡ true → is_pos (new max).max ≡ true
new_on max on = rw new_max on

new-IsAfter : (max : ℤ) → IsAfter [] (new max)
unfolding new
new-IsAfter max = record {
  counted = refl;
  newest = record {
    dropped = [];
    split = refl;
    fits = omega arith;
    longest = λ xs ys h fit. rw (nil_of_append xs ys h) (omega arith);
  };
}

-- A buffer with a positive cap holds, after any writes, the longest end of the chunks written (the
-- empty ones left out) whose bytes fit in the cap; and its byte count is what its entries hold.
pub write_all-IsNewest :
    (max : ℤ) (cs : List Chunk)
    → is_pos max ≡ true
    → ((write_all (new max) cs).bytes ≡ total (write_all (new max) cs).entries)
      × IsNewest (to_ℕ max) (history cs) (write_all (new max) cs).entries
write_all-IsNewest max cs on =
    let a = write_all-IsAfter cs (new max) [] (new_on max on) (new-IsAfter max) in
    (
      a.counted,
      subst (λ (m : ℤ). IsNewest (to_ℕ m) (history cs) (write_all (new max) cs).entries)
          (write_all_max cs (new max) ∙ new_max max) a.newest,
    )

-- A cap of 0 or less turns capture off: nothing is ever kept, and the subscribers get nothing.
pub write_all_disabled : (b : Buffer) (cs : List Chunk) → is_pos b.max ≡ false → write_all b cs ≡ b
unfolding write_all write
write_all_disabled b [] off = refl
write_all_disabled b (c ∷ cs) off = rw off (write_all_disabled b cs off)

append_oversized :
    (b : Buffer) (e : Entry)
    → b.bytes ≡ total b.entries
    → to_ℕ b.max < length e.bytes
    → ((append b e).entries ≡ []) × ((append b e).bytes ≡ 0)
unfolding append
append_oversized b e counted big =
    let sum : b.bytes + length e.bytes ≡ total (b.entries ++ (e ∷ [])) =
      omega (arith, counted, total-append b.entries (e ∷ [])) in
    let nothing = evict_oversized (to_ℕ b.max) (b.bytes + length e.bytes) b.entries e sum big in
    (
      nothing,
      evict_counted (to_ℕ b.max) (b.bytes + length e.bytes) (b.entries ++ (e ∷ [])) sum
          ∙ ap total nothing,
    )

-- One write of more bytes than the cap empties a buffer whose byte count is right: neither the new
-- chunk nor anything older stays.
pub write_oversized :
    (b : Buffer) (c : Chunk)
    → is_pos b.max ≡ true
    → b.bytes ≡ total b.entries
    → to_ℕ b.max < length c.bytes
    → ((write c.stream c.bytes c.at b).entries ≡ []) × ((write c.stream c.bytes c.at b).bytes ≡ 0)
unfolding write
write_oversized b c on counted big = elim (Bool-cases (is_empty c.bytes)) [
  | inl empty ↦ absurd (ground arith)
  | inr full ↦ rw (on, full) (append_oversized b (entry c) counted big)
]
