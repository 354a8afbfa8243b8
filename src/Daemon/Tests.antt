-- ===== src/Daemon/Tests.antt =====
-- A daemon that starts with a policy file, serves a request, sweeps, and gets a SIGHUP when the file
-- is gone.
use kotakpasir.Base.{
  ◌≡◌, ◌⊎◌, refl, true, some, List, [], ◌∷◌, String, string_eq, nat_eq, is_error, message, sentinel,
  ok, err,
}
use kotakpasir.Base.Dict.{insert}
use kotakpasir.Base.Text.{strip_text}
use kotakpasir.Pool
use kotakpasir.Proxy.{getenv}
use kotakpasir.Manager.Pools.{build_pools}
use kotakpasir.Base.Int.{pos, int_eq}
use kotakpasir.Policy.{Policy, default_policy}
use kotakpasir.Policy.Load.{load, not_exist}
use kotakpasir.Policy.Validate.{validate}
use kotakpasir.Policy.Validate.Laws.{IsValid}
use kotakpasir.Policy.Tests.{team_policy}
use kotakpasir.Runtime.Counting.{counting}
use kotakpasir.Store.Tests.{two, two-IsNodup}
use kotakpasir.Manager.{Manager}
use kotakpasir.Manager.Tests.{node, disk, disk-Contract}
use kotakpasir.Manager.Reload
use kotakpasir.Manager.Reload.{new_manager}
use kotakpasir.Api.Server.{Request}
use kotakpasir.Api.Tests.{Message, nothing, simple, guarded, noon}
use kotakpasir.Proxy.Tests.{latin}
use kotakpasir.Daemon.{
  PolicyConfig, Files, Event, requested, ticked, hung_up, check_required, first_policy, boot,
  reload, run,
}
use kotakpasir.Daemon.Config.{Parsers, load_config}
use kotakpasir.Daemon.Invariant.{IsSound, run-boot-IsSound, reload_outcome}

abbrev pub files : Files
files = record {
  read = λ (path : String). ok "images:";
  parse = λ (text : String). ok team_policy;
  stat = λ (path : String). ok tt;
}

abbrev no_files : Files
no_files = record files { read = λ (path : String). err (sentinel not_exist) }

abbrev pub required : PolicyConfig
required = record { file = "kp.yaml"; required = true }

abbrev pub booted : Manager counting disk
booted = (Reload.start (new_manager {R = counting} {S = disk} 0 two (some team_policy) (pos 0))).1

pub started : boot files required (pos 0) 0 two ≡ ok booted
unfolding boot first_policy check_required string_eq load validate int_eq Reload.start new_manager
    build_pools insert Pool.start Pool.new Pool.spawn
started = refl

abbrev list_all : Request Message
list_all = record {
  method = "GET";
  path = "v1" ∷ "sandboxes" ∷ [];
  authorization = "Bearer secret";
  query = record { follow = ""; tail = "" };
  body = nothing;
}

abbrev history : List (Event Message)
history = requested noon list_all ∷ ticked 9 ∷ hung_up no_files ∷ []

run-boot-IsSound_example : IsSound disk-Contract (run simple guarded required history booted)
run-boot-IsSound_example =
    run-boot-IsSound simple disk-Contract files guarded required (pos 0) 0 two history booted
      two-IsNodup started

reload_outcome_example :
    let n = reload no_files "kp.yaml" node in
    (n ≡ record node { world = n.world })
    ⊎ ((pol : Policy) × (load no_files.read no_files.parse "kp.yaml" ≡ ok pol)
        × IsValid pol
        × (n.policy ≡ pol)
        × (n.db ≡ node.db)
        × (n.logs ≡ node.logs))
reload_outcome_example = reload_outcome no_files "kp.yaml" node

-- The file is gone, and with it every restriction.
forgotten : (reload no_files "kp.yaml" node).policy ≡ default_policy
unfolding reload default_policy string_eq load is_error Reload.replace_policy validate int_eq
    Reload.start_fresh Reload.merge build_pools
forgotten = refl

abbrev no_parsers : Parsers
no_parsers = record {
  atoi = λ (s : String). err (message "invalid syntax" []);
  duration = λ (s : String). err (message "invalid duration" []);
}

defaults_kept :
    (load_config latin no_parsers ("KP_LOG_BUFFER_BYTES=many" ∷ [])).buffer_bytes ≡ pos 262144
unfolding load_config string_eq getenv strip_text nat_eq
defaults_kept = refl
