-- ===== src/Manager/Tests.antt =====
-- A manager over the SQL store and the counting runtime, with one policy and two sandboxes.
use kotakpasir.Base.{
  none, ◌*◌, ◌≡◌, if◌then◌else◌, refl, ◌↔◌, ◌⊎◌, true, false, some, List, [], ◌∷◌, string_eq,
  nat_eq, Error, ok, err,
}
use kotakpasir.Base.Dict.{lookup}
use kotakpasir.Base.Int.{pos, int_eq, to_ℕ}
use kotakpasir.LogBuf.{Entry, stdout}
use kotakpasir.Policy.{Resolved, find_image}
use kotakpasir.Policy.Validate.{validate}
use kotakpasir.Policy.Resolve.{resolve, apply_global_deny}
use kotakpasir.Policy.Tests.{alpine, team_policy, data_request, data_resolved}
use kotakpasir.Pool.{Pool}
use kotakpasir.Runtime.Counting.{counting}
use kotakpasir.Sandbox.{Sandbox, Store, CreateOptions, ExecOptions}
use kotakpasir.Sandbox.Contract.{Contract}
use kotakpasir.Store.{sqlite, scan, to_row, second, put, get as row_get}
use kotakpasir.Store.Contents.{contents}
use kotakpasir.Store.Contract.{sqlite-Contract}
use kotakpasir.Store.Codec.{codec, codec-IsJson}
use kotakpasir.Store.Tests.{job, two, two-IsNodup, shell_spared}
use kotakpasir.Manager.{Manager}
use kotakpasir.Manager.Create.{create, request_of, new_sandbox}
use kotakpasir.Manager.Create.Entry.{IsStored, IsConfined, launched}
use kotakpasir.Manager.Create.Origin.{IsFor, IsHoused}
use kotakpasir.Manager.Create.Outcome.{create-IsStored, create-IsConfined}
use kotakpasir.Manager.Lifecycle.{delete, sweep}
use kotakpasir.Manager.Lifecycle.Outcome.{Deletes, delete-Deletes}
use kotakpasir.Manager.Lifecycle.Sweep.{sweep_spares}
use kotakpasir.Manager.Lifecycle.Reaping.{sweep_reaps}
use kotakpasir.Store.Expiry.{due?}
use kotakpasir.Manager.Logs.{tail_lines}
use kotakpasir.Manager.Logs.Tail.{IsTail, tail_lines-IsTail}
use kotakpasir.Manager.Pools.{pool_spec_for, try_claim}
use kotakpasir.Manager.Pools.Matching.{IsMatch, IsClaim, try_claim_iff}
use kotakpasir.Manager.Reload.{replace_policy}
use kotakpasir.Manager.Reload.Atomic.{Replaced, replace_policy_outcome}

abbrev pub disk : Store
disk = sqlite codec

abbrev pub disk-Contract : Contract disk
disk-Contract = sqlite-Contract codec codec-IsJson

abbrev pub warm_pool : Pool
warm_pool = record {
  cfg = record { image = alpine.name; target = alpine.pool };
  spec = pool_spec_for team_policy alpine;
  avail = "w2" ∷ "w1" ∷ [];
  closed = false;
  signal = false;
  refilling = true;
}

abbrev pub node : Manager counting disk
node = record {
  world = 2;
  db = two;
  policy = team_policy;
  pools = (alpine.name, warm_pool) ∷ [];
  started = true;
  metrics = [];
  log_cap = pos 4096;
  logs = [];
}

abbrev data_options : CreateOptions
data_options = record {
  name = data_request.name;
  profile = data_request.profile;
  image = data_request.image;
  cmd = data_request.cmd;
  env = data_request.env;
  cpus = data_request.cpus;
  memory_mb = data_request.memory_mb;
  ttl = data_request.ttl;
  labels = data_request.labels;
}

abbrev data_sandbox : Sandbox
data_sandbox = launched (new_sandbox data_resolved "new" 7) "ccc"

abbrev pub job_read : Sandbox
job_read = scan codec (to_row codec job)

data_options-create : (create data_options "new" 7 node).0 ≡ ok data_sandbox
unfolding create string_eq resolve lookup find_image try_claim put apply_global_deny
data_options-create = refl

create-IsStored_example :
    (r : Resolved) × (resolve node.policy (request_of data_options) ≡ ok r)
    × IsFor r "new" 7 data_sandbox
    × IsHoused r "new" data_sandbox node (create data_options "new" 7 node).1
    × IsStored disk-Contract data_sandbox node (create data_options "new" 7 node).1
create-IsStored_example =
    create-IsStored disk-Contract data_options "new" 7 node data_sandbox two-IsNodup
      data_options-create

create-IsConfined_example : IsConfined disk-Contract "new" node (create data_options "new" 7 node).1
create-IsConfined_example = create-IsConfined disk-Contract data_options "new" 7 node two-IsNodup

delete-Deletes_example : Deletes disk-Contract "job" "shell" node (delete "job" node)
delete-Deletes_example = delete-Deletes disk-Contract "job" "shell" node two-IsNodup

pub job_found : (disk.get "job" two).0 ≡ ok job_read
unfolding row_get string_eq to_row
job_found = refl

abbrev ls : ExecOptions
ls = record { cmd = "ls" ∷ []; env = []; work_dir = ""; stdin = []; stdout = false; stderr = false }

sweep_spares_example :
    contents codec (sweep (9 * second) node).db "shell" ≡ contents codec node.db "shell"
sweep_spares_example =
    sweep_spares counting codec codec-IsJson (9 * second) node "shell" two-IsNodup shell_spared

sweep_reaps_example : contents codec (sweep (9 * second) node).db "job" ≡ (
    if due? (9 * second) (contents codec node.db "job") then none else contents codec node.db "job")
sweep_reaps_example =
    sweep_reaps counting codec codec-IsJson (9 * second) node "job" refl two-IsNodup

abbrev lines : List Entry
lines =
    record { stream = stdout; bytes = 97 ∷ 10 ∷ []; at = 1 }
    ∷ record { stream = stdout; bytes = 98 ∷ 10 ∷ 99 ∷ 10 ∷ []; at = 2 }
    ∷ []

tail_lines-IsTail_example : IsTail (to_ℕ (pos 1)) lines (tail_lines (pos 1) lines)
tail_lines-IsTail_example = tail_lines-IsTail (pos 1) lines refl

abbrev pub alpine_resolved : Resolved
alpine_resolved = record data_resolved {
  image = "alpine:latest";
  cpus = pos 1000000000;
  memory_mb = pos 256;
  egress = record { mode = "none"; hosts = [] };
}

try_claim_iff_example : ((try_claim alpine_resolved node).0 ≡ some "w2") ↔ (
    IsMatch node.policy alpine_resolved
    × IsClaim alpine_resolved.image "w2" node (try_claim alpine_resolved node).1)
try_claim_iff_example = try_claim_iff counting disk node alpine_resolved "w2"

replace_policy_outcome_example :
    let r = replace_policy {R = counting} {S = disk} (some team_policy) node in
    ((r.0 ≡ ok tt) × (validate team_policy ≡ ok tt) × Replaced team_policy "alpine:latest" node r.1)
    ⊎ ((e : Error) × (r.0 ≡ err e) × (r.1 ≡ record node { world = r.1.world }))
replace_policy_outcome_example = replace_policy_outcome team_policy "alpine:latest" node
