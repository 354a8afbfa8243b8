-- ===== src/Pool/Tests.antt =====
-- A pool of two containers: its start, and a claim while the refiller works.
use kotakpasir.Base.{
  ◌≤◌, ◌≡◌, refl, ◌⊎◌, inl, true, false, [], ◌∷◌, Error, arith, nat_eq, string_eq,
}
use kotakpasir.Base.Int.{pos}
use kotakpasir.Runtime.{Spec}
use kotakpasir.Runtime.Counting.{counting}
use kotakpasir.Pool.{Pool, full, failed, available, start, refill}
use kotakpasir.Pool.Filling.{Started, Broken, start_outcome, refill_outcome}
use kotakpasir.Pool.Ownership.{
  World, Reach, test, create, enter, get_one, here, next, idle, tested, holding, IsOwned, IsBounded,
  count, places, entered, claim, Reach-places, Reach-IsBounded,
}

abbrev shell_spec : Spec
shell_spec = record {
  name = "";
  image = "alpine:latest";
  cmd = [];
  env = [];
  cpus = pos 1000000000;
  memory_mb = pos 256;
  pids_limit = pos 64;
  user = "1000:1000";
  read_only = true;
  network_mode = "none";
  runtime_name = "";
  egress = record { mode = ""; hosts = [] };
  labels = [];
  ttl = pos 0;
}

abbrev empty_pool : Pool
empty_pool = record {
  cfg = record { image = "alpine:latest"; target = pos 2 };
  spec = shell_spec;
  avail = [];
  closed = false;
  signal = true;
  refilling = false;
}

start_outcome_example :
    Started counting empty_pool 2 0 (start counting empty_pool 0)
    ⊎ Broken counting empty_pool 2 0 (start counting empty_pool 0)
start_outcome_example = start_outcome counting empty_pool 0 refl refl

refill_outcome_example :
    let r = refill counting empty_pool 0 in
    (available r.1 ≤ 2)
    × (available empty_pool ≤ available r.1)
    × (((r.0 ≡ full) × ((empty_pool.signal ≡ false) ⊎ ((r.1.closed ≡ true) ⊎ (available r.1 ≡ 2))))
        ⊎ ((e : Error) × (r.0 ≡ failed e)))
refill_outcome_example = refill_outcome counting empty_pool 0 (omega arith)

abbrev fresh_world : World
fresh_world = record { pool = empty_pool; phase = idle; created = []; claimed = []; removed = [] }

fresh_world-IsOwned : IsOwned fresh_world
fresh_world-IsOwned = record { placed = λ x. refl; once = λ x. omega arith }

fresh_world-IsBounded : IsBounded fresh_world
fresh_world-IsBounded = record { fits = omega arith; place_left = inl refl; shut_empty = inl refl }

abbrev past_test : World
past_test = record fresh_world { phase = tested }

abbrev with_container : World
with_container = record past_test { phase = holding "c1"; created = "c1" ∷ [] }

claimed_world-Reach : Reach fresh_world (claim (entered "c1" with_container))
claimed_world-Reach =
    next
      (next
        (next (next here (test fresh_world refl refl (omega arith)))
          (create past_test "c1" refl refl))
        (enter with_container "c1" refl))
      (get_one (entered "c1" with_container))

Reach-places_example :
    (count "c1" (claim (entered "c1" with_container)).created
      ≡ places "c1" (claim (entered "c1" with_container)))
    × (places "c1" (claim (entered "c1" with_container)) ≤ 1)
Reach-places_example =
    Reach-places fresh_world (claim (entered "c1" with_container)) "c1" fresh_world-IsOwned
      claimed_world-Reach

Reach-IsBounded_example : IsBounded (claim (entered "c1" with_container))
Reach-IsBounded_example =
    Reach-IsBounded fresh_world (claim (entered "c1" with_container)) fresh_world-IsBounded
      claimed_world-Reach
