-- ===== src/Metrics/Totals.antt =====
-- What the metrics page says after the manager's calls of the recorder.
use kotakpasir.Base.{
  ℕ, suc, ◌+◌, ◌≡◌, Bool, true, false, ◌&&◌, List, [], ◌∷◌, String, if◌then◌else◌, ◌==◌, string_eq,
  string_dec, arith,
}
use kotakpasir.Manager.{
  Event, sandbox_created, pool_hit, pool_miss, set_sandbox_active, reaper_swept,
}
use kotakpasir.Metrics.{
  Prometheus, created_total, active_name, hit_total, miss_total, swept_total, record_one,
  record_all,
}

abbrev pub same_labels : List String → List String → Bool
same_labels [] [] = true
same_labels (x ∷ xs) (y ∷ ys) = x == y && same_labels xs ys
same_labels _ _ = false

-- What the Prometheus client documents: an instrument starts at 0, `Inc` and `Add` raise it, `Set` sets
-- it, and no other is touched.
pub record Counts (P : Prometheus) : Type 0 where
  pub new_law : (name : String) (labels : List String) → P.value name labels P.new_registry ≡ 0
  pub inc_law :
      (name other : String) (labels others : List String) (s : P.State)
      → P.value other others (P.inc name labels s) ≡ (
          if name == other && same_labels labels others
          then suc (P.value other others s)
          else P.value other others s)
  pub set_law :
      (name other : String) (n : ℕ) (others : List String) (s : P.State)
      → P.value other others (P.set name n s)
        ≡ (if name == other && same_labels [] others then n else P.value other others s)
  pub add_law :
      (name other : String) (n : ℕ) (others : List String) (s : P.State)
      → P.value other others (P.add name n s) ≡ (
          if name == other && same_labels [] others
          then P.value other others s + n
          else P.value other others s)

-- The creations with an image, a profile and an outcome.
abbrev pub creations : String → String → String → List Event → ℕ
creations i p o [] = 0
creations i p o (sandbox_created i' p' o' ∷ es) =
    let n = creations i p o es in if i' == i && (p' == p && o' == o) then suc n else n
creations i p o (_ ∷ es) = creations i p o es

abbrev pub hits : String → List Event → ℕ
hits i [] = 0
hits i (pool_hit i' ∷ es) = let n = hits i es in if i' == i then suc n else n
hits i (_ ∷ es) = hits i es

abbrev pub misses : String → List Event → ℕ
misses i [] = 0
misses i (pool_miss i' ∷ es) = let n = misses i es in if i' == i then suc n else n
misses i (_ ∷ es) = misses i es

abbrev pub swept : List Event → ℕ
swept [] = 0
swept (reaper_swept n ∷ es) = swept es + n
swept (_ ∷ es) = swept es

-- The number that the latest refresh has counted, or 0.
abbrev pub last_active : List Event → ℕ
last_active [] = 0
last_active (set_sandbox_active n ∷ es) = n
last_active (_ ∷ es) = last_active es

module _ (P : Prometheus) (C : Counts P) where
  -- The page's values are those of the calls.
  pub record Agrees (es : List Event) (s : P.State) : Type 0 where
    pub created : (i p o : String) → P.value created_total (i ∷ p ∷ o ∷ []) s ≡ creations i p o es
    pub hit : (i : String) → P.value hit_total (i ∷ []) s ≡ hits i es
    pub miss : (i : String) → P.value miss_total (i ∷ []) s ≡ misses i es
    pub swept_sum : P.value swept_total [] s ≡ swept es
    pub active : P.value active_name [] s ≡ last_active es

  -- What a call does to the value of an instrument.
  abbrev effect : Event → String → List String → ℕ → ℕ
  effect (sandbox_created i p o) name labels n =
      if created_total == name && same_labels (i ∷ p ∷ o ∷ []) labels then suc n else n
  effect (set_sandbox_active k) name labels n =
      if active_name == name && same_labels [] labels then k else n
  effect (pool_hit i) name labels n =
      if hit_total == name && same_labels (i ∷ []) labels then suc n else n
  effect (pool_miss i) name labels n =
      if miss_total == name && same_labels (i ∷ []) labels then suc n else n
  effect (reaper_swept k) name labels n =
      if swept_total == name && same_labels [] labels then n + k else n

  record_one-effect :
      (e : Event) (name : String) (labels : List String) (s : P.State)
      → P.value name labels (record_one P e s) ≡ effect e name labels (P.value name labels s)
  unfolding record_one
  record_one-effect (sandbox_created i p o) name labels s = C.inc_law _ name _ labels s
  record_one-effect (set_sandbox_active k) name labels s = C.set_law _ name k labels s
  record_one-effect (pool_hit i) name labels s = C.inc_law _ name _ labels s
  record_one-effect (pool_miss i) name labels s = C.inc_law _ name _ labels s
  record_one-effect (reaper_swept k) name labels s = C.add_law _ name k labels s

  record_one-Agrees :
      (e : Event) (es : List Event) (s : P.State) → Agrees es s → Agrees (e ∷ es) (record_one P e s)
  unfolding record_one string_eq string_dec
  record_one-Agrees e es s a =
      let after = λ (name : String) (labels : List String). record_one-effect e name labels s in
      record {
        created = λ i p o. ground (arith, after created_total (i ∷ p ∷ o ∷ []), a.created i p o);
        hit = λ i. ground (arith, after hit_total (i ∷ []), a.hit i);
        miss = λ i. ground (arith, after miss_total (i ∷ []), a.miss i);
        swept_sum = ground (arith, after swept_total [], a.swept_sum);
        active = ground (arith, after active_name [], a.active);
      }

  -- The metrics page agrees with the manager's calls of the recorder: for each image, profile and outcome
  -- the number of creations; for each image the numbers of hits and misses of its pool; the sum of what
  -- the reaper has swept; and the last number of running sandboxes. The Prometheus client is taken to
  -- count as documented.
  pub record_all-Agrees : (es : List Event) → Agrees es (record_all P es)
  unfolding record_all
  record_all-Agrees [] = record {
    created = λ i p o. C.new_law created_total (i ∷ p ∷ o ∷ []);
    hit = λ i. C.new_law hit_total (i ∷ []);
    miss = λ i. C.new_law miss_total (i ∷ []);
    swept_sum = C.new_law swept_total [];
    active = C.new_law active_name [];
  }
  record_all-Agrees (e ∷ es) = record_one-Agrees e es (record_all P es) (record_all-Agrees es)
