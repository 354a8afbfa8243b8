-- ===== src/LogBuf/Eviction.antt =====
-- The eviction loop of `write`: what it drops and what it leaves.
use kotakpasir.Base.{
  ℕ, ◌+◌, ◌-◌, ◌≤◌, ◌<◌, ◌≡◌, refl, sym, ap, ◌⊎◌, inr, List, [], ◌∷◌, ◌++◌, length, length-append,
  ltb, if◌then◌else◌, arith,
}
use kotakpasir.LogBuf.{Entry, evict}

-- The bytes that entries hold together.
abbrev pub total : List Entry → ℕ
total [] = 0
total (e ∷ es) = length e.bytes + total es

pub total-append : (xs ys : List Entry) → total (xs ++ ys) ≡ total xs + total ys
total-append [] ys = omega arith
total-append (x ∷ xs) ys = omega (arith, total-append xs ys)

pub evict_counted :
    (max bytes : ℕ) (es : List Entry)
    → bytes ≡ total es
    → (evict max bytes es).0 ≡ total (evict max bytes es).1
unfolding evict
evict_counted max bytes [] h = h
evict_counted max bytes (e ∷ es) h =
    ground (arith, evict_counted max (bytes - length e.bytes) es (omega arith))

-- The entries that the loop drops.
unfoldable pub evicted : ℕ → ℕ → List Entry → List Entry
evicted max bytes [] = []
evicted max bytes (e ∷ es) =
    let rest = evicted max (bytes - length e.bytes) es in if ltb max bytes then e ∷ rest else []

pub evict_split :
    (max bytes : ℕ) (es : List Entry) → es ≡ evicted max bytes es ++ (evict max bytes es).1
unfolding evict evicted
evict_split max bytes [] = refl
evict_split max bytes (e ∷ es) = ground (arith, evict_split max (bytes - length e.bytes) es)

pub evict_fits :
    (max bytes : ℕ) (es : List Entry) → bytes ≡ total es → total (evict max bytes es).1 ≤ max
unfolding evict
evict_fits max bytes [] h = omega arith
evict_fits max bytes (e ∷ es) h =
    ground (arith, evict_fits max (bytes - length e.bytes) es (omega arith))

pub evict_longest :
    (max bytes : ℕ) (es xs ys : List Entry)
    → bytes ≡ total es
    → es ≡ xs ++ ys
    → total ys ≤ max
    → length ys ≤ length (evict max bytes es).1
unfolding evict
evict_longest max bytes [] [] ys b h fit = ground arith
evict_longest max bytes [] (x ∷ xs) ys b h fit = cc
evict_longest max bytes (e ∷ es) [] ys b h fit = ground arith
evict_longest max bytes (e ∷ es) (x ∷ xs) ys b h fit = ground (
  arith,
  evict_longest max (bytes - length e.bytes) es xs ys (omega arith),
  ap length h,
  length-append xs ys,
)

pub nil_of_append : (xs ys : List Entry) → [] ≡ xs ++ ys → ys ≡ []
nil_of_append [] ys h = sym h
nil_of_append (x ∷ xs) ys h = cc

-- A list that ends in one element, split in two.
pub snoc_split :
    (all xs ys : List Entry) (e : Entry)
    → all ++ (e ∷ []) ≡ xs ++ ys
    → (ys ≡ []) ⊎ ((zs : List Entry) × (ys ≡ zs ++ (e ∷ [])) × (all ≡ xs ++ zs))
snoc_split all [] ys e h = inr (all, sym h, refl)
snoc_split [] (x ∷ xs) ys e h = ground (arith, nil_of_append xs ys)
snoc_split (a ∷ all) (x ∷ xs) ys e h = ground (arith, snoc_split all xs ys e)

-- Of two ends of a list the shorter is an end of the longer.
pub end_of_end :
    (us bs xs ys : List Entry)
    → us ++ bs ≡ xs ++ ys
    → length ys ≤ length bs
    → (zs : List Entry) × (bs ≡ zs ++ ys)
end_of_end [] bs xs ys h le = (xs, h)
end_of_end (a ∷ us) bs [] ys h le = absurd (omega (arith, ap length h, length-append {0} us bs))
end_of_end (a ∷ us) bs (x ∷ xs) ys h le = end_of_end us bs xs ys (ground arith) le

pub evict_oversized :
    (max bytes : ℕ) (es : List Entry) (e : Entry)
    → bytes ≡ total (es ++ (e ∷ []))
    → max < length e.bytes
    → (evict max bytes (es ++ (e ∷ []))).1 ≡ []
unfolding evict
evict_oversized max bytes [] e b h = ground arith
evict_oversized max bytes (x ∷ es) e b h = ground (
  arith,
  total-append es (e ∷ []),
  evict_oversized max (bytes - length x.bytes) es e (omega arith),
)
