-- ===== src/Metrics/Tests.antt =====
-- A Prometheus client that is a table of values, and a daemon that creates a sandbox and sweeps.
use kotakpasir.Base.{
  ℕ, suc, ◌+◌, ◌≡◌, refl, ◌&&◌, List, [], ◌∷◌, String, if◌then◌else◌, ◌==◌, string_eq,
}
use kotakpasir.Base.Int.{pos}
use kotakpasir.Store.Tests.{two}
use kotakpasir.Api.{CreateRequest}
use kotakpasir.Api.Server.{Request}
use kotakpasir.Api.Tests.{Message, asked, simple, guarded, noon}
use kotakpasir.Daemon.{Event as Happening, requested, ticked, run}
use kotakpasir.Daemon.Tests.{files, required, booted, started}
use kotakpasir.Metrics.{Prometheus}
use kotakpasir.Metrics.Balance.{successes}
use kotakpasir.Metrics.Balance.Uptime.{run-boot_balance}
use kotakpasir.Metrics.Totals.{Counts, hits, misses, same_labels}

abbrev Table : Type 0
Table = String → List String → ℕ

abbrev table : Prometheus
table = record {
  State = Table;
  new_registry = λ (name : String) (labels : List String). 0;
  inc =
      λ (name : String) (labels : List String) (s : Table) (other : String) (others : List String).
        if name == other && same_labels labels others then suc (s other others) else s other others;
  set = λ (name : String) (n : ℕ) (s : Table) (other : String) (others : List String).
      if name == other && same_labels [] others then n else s other others;
  add = λ (name : String) (n : ℕ) (s : Table) (other : String) (others : List String).
      if name == other && same_labels [] others then s other others + n else s other others;
  value = λ (name : String) (labels : List String) (s : Table). s name labels;
}

table-Counts : Counts table
table-Counts = record {
  new_law = λ name labels. refl;
  inc_law = λ name other labels others s. refl;
  set_law = λ name other n others s. refl;
  add_law = λ name other n others s. refl;
}

abbrev alpine : CreateRequest
alpine = record {
  name = "";
  profile = "";
  image = "alpine:latest";
  cmd = [];
  env = [];
  cpus = pos 0;
  memory_mb = pos 0;
  ttl_sec = pos 60;
}

abbrev make_one : Request Message
make_one = record {
  method = "POST";
  path = "v1" ∷ "sandboxes" ∷ [];
  authorization = "Bearer secret";
  query = record { follow = ""; tail = "" };
  body = asked alpine;
}

abbrev day : List (Happening Message)
day = requested noon make_one ∷ ticked 9 ∷ []

run-boot_balance_example :
    let counted = (run simple guarded required day booted).metrics in
    hits "alpine:latest" counted + misses "alpine:latest" counted
    ≡ successes "alpine:latest" counted
run-boot_balance_example =
    run-boot_balance simple "alpine:latest" files guarded required (pos 0) 0 two day booted started
