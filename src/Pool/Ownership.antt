-- ===== src/Pool/Ownership.antt =====
-- The pool under concurrency: claims, shutdown and the one goroutine that spawns, whose creation of
-- a container and whose lock behind it are separate steps. The creations of `Start` are not among the steps:
-- the manager serves no claim from a pool whose `Start` is not over, and its refiller runs only then.
use kotakpasir.Base.{
  ℕ, ◌+◌, ◌≤◌, ◌<◌, ◌≡◌, refl, ap, ◌∙◌, reverse, ◌⊎◌, Bool, true, false, List, [], ◌∷◌, ◌++◌,
  String, length, if◌then◌else◌, ◌==◌, string_eq, none, some, arith,
}
use mathlib.Core.List.{reverse-cons}
use kotakpasir.Base.Int.{to_ℕ}
use kotakpasir.Pool.{Pool, take_in, close, get}

-- Where the spawning goroutine stands: outside the loop body, past the test that the pool is open
-- and not full, or with a container that it has created and not yet entered.
pub data Phase : Type 0 where
  idle : Phase
  tested : Phase
  holding : String → Phase

-- The pool with the history of its containers: all that were created, those that `Get` handed out
-- and those that were given to `Remove`.
pub record World : Type 0 where
  pub pool : Pool
  pub phase : Phase
  pub created : List String
  pub claimed : List String
  pub removed : List String

abbrev pub held : Phase → List String
held idle = []
held tested = []
held (holding id) = id ∷ []

abbrev pub count : String → List String → ℕ
count x [] = 0
count x (y ∷ ys) = (if y == x then 1 else 0) + count x ys

-- `spawn` behind the creation, with the removal noted.
pub entered : String → World → World
entered id w = elim (take_in id w.pool) [
  | none ↦ record w { phase = idle; removed = id ∷ w.removed }
  | some p ↦ record w { phase = idle; pool = p }
]

-- `Shutdown`, with the removals noted.
pub drained : World → World
drained w = elim (close w.pool) [
  | none ↦ w
  | some (ids, p) ↦ record w { pool = p; removed = ids ++ w.removed }
]

-- `Get`, with the claim noted.
pub claim : World → World
claim w =
    let (taken, p) = get w.pool in
    record w { pool = p; claimed = elim taken [ none ↦ w.claimed | some id ↦ id ∷ w.claimed ] }

-- The step relation. Ids of created containers are new: the runtime never gives one twice.
pub data Step : World → World → Type 0 where
  test :
      (w : World)
      → w.phase ≡ idle
      → w.pool.closed ≡ false
      → length w.pool.avail < to_ℕ w.pool.cfg.target
      → Step w (record w { phase = tested })
  create :
      (w : World) (id : String)
      → w.phase ≡ tested
      → count id w.created ≡ 0
      → Step w (record w { phase = holding id; created = id ∷ w.created })
  create_failed : (w : World) → w.phase ≡ tested → Step w (record w { phase = idle })
  enter : (w : World) (id : String) → w.phase ≡ holding id → Step w (entered id w)
  get_one : (w : World) → Step w (claim w)
  shut : (w : World) → Step w (drained w)

pub data Reach (v : World) : World → Type 0 where
  here : Reach v v
  next : {w u : World} → Reach v w → Step w u → Reach v u

-- The places of a container.
abbrev pub places : String → World → ℕ
places x w = count x w.pool.avail + count x (held w.phase) + count x w.claimed + count x w.removed

pub record IsOwned (w : World) : Type 0 where
  pub placed : (x : String) → count x w.created ≡ places x w
  pub once : (x : String) → count x w.created ≤ 1

abbrev busy : Phase → Bool
busy idle = false
busy tested = true
busy (holding id) = true

pub record IsBounded (w : World) : Type 0 where
  pub fits : length w.pool.avail ≤ to_ℕ w.pool.cfg.target
  pub place_left :
      (w.phase ≡ idle) ⊎ ((w.pool.closed ≡ true) ⊎ (length w.pool.avail < to_ℕ w.pool.cfg.target))
  pub shut_empty : (w.pool.closed ≡ false) ⊎ (w.pool.avail ≡ [])

count-append : (x : String) (ys zs : List String) → count x (ys ++ zs) ≡ count x ys + count x zs
count-append x [] zs = omega arith
count-append x (y ∷ ys) zs = omega (arith, count-append x ys zs)

count-reverse : (x : String) (ys : List String) → count x (reverse ys) ≡ count x ys
count-reverse x [] = refl
count-reverse x (y ∷ ys) =
    ap (count x) (reverse-cons y ys)
    ∙ omega (arith, count-append x (reverse ys) (y ∷ []), count-reverse x ys)

Step-IsBounded : {w u : World} → Step w u → IsBounded w → IsBounded u
unfolding entered drained claim get take_in close
Step-IsBounded (test w p o l) b = ground arith
Step-IsBounded (create w id p f) b = ground arith
Step-IsBounded (create_failed w p) b = ground arith
Step-IsBounded (enter w id p) b = ground arith
Step-IsBounded (get_one w) b = ground arith
Step-IsBounded (shut w) b = ground arith

Step-placed :
    {w u : World} (x : String)
    → Step w u
    → count x w.created ≡ places x w
    → count x u.created ≡ places x u
unfolding entered drained claim get take_in close
Step-placed x (test w p o l) h = ground arith
Step-placed x (create w id p f) h = ground arith
Step-placed x (create_failed w p) h = ground arith
Step-placed x (enter w id p) h = ground arith
Step-placed x (get_one w) h = ground arith
Step-placed x (shut w) h =
    ground (arith, count-append x (reverse w.pool.avail) w.removed, count-reverse x w.pool.avail)

Step-once : {w u : World} (x : String) → Step w u → count x w.created ≤ 1 → count x u.created ≤ 1
unfolding entered drained claim
Step-once x (test w p o l) h = h
Step-once x (create w id p f) h = ground arith
Step-once x (create_failed w p) h = h
Step-once x (enter w id p) h = ground arith
Step-once x (get_one w) h = h
Step-once x (shut w) h = ground arith

Step-IsOwned : {w u : World} → Step w u → IsOwned w → IsOwned u
Step-IsOwned st o = record {
  placed = λ x. Step-placed x st (o.placed x);
  once = λ x. Step-once x st (o.once x);
}

Reach-IsOwned : {v w : World} → Reach v w → IsOwned v → IsOwned w
Reach-IsOwned here o = o
Reach-IsOwned (next r st) o = Step-IsOwned st (Reach-IsOwned r o)

-- However claims, a shutdown and the spawning goroutine are interleaved, a container that the pool
-- has created is at every moment in exactly one place: warm in the pool, in the hands of the
-- spawning goroutine, claimed by a caller, or given to `Remove`. So none is claimed twice, none is
-- removed after it was claimed, and none is lost.
pub Reach-places :
    (v w : World) (x : String)
    → IsOwned v
    → Reach v w
    → (count x w.created ≡ places x w) × (places x w ≤ 1)
Reach-places v w x o r =
    let after = Reach-IsOwned r o in (after.placed x, omega (arith, after.placed x, after.once x))

-- However they are interleaved, the pool never holds more warm containers than its target, and a
-- closed pool holds none.
pub Reach-IsBounded : (v w : World) → IsBounded v → Reach v w → IsBounded w
Reach-IsBounded v w b here = b
Reach-IsBounded v w b (next r st) = Step-IsBounded st (Reach-IsBounded v _ b r)
