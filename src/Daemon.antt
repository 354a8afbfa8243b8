-- ===== src/Daemon.antt =====
-- cmd/kpd/main.go: what the daemon does with its manager from the start on. Opening the database and
-- the Docker client, the signals and the listener are not modelled; reading a file, decoding YAML
-- and `os.Stat` are parameters.
pub mod Config
pub mod Invariant
pub mod Tests
use kotakpasir.Base.{
  ℕ, Bool, true, false, Option, none, some, List, [], ◌∷◌, String, if◌then◌else◌, ◌==◌, string_eq,
  message, wrap, Error, Result, ok, err, ◌>>=◌, ◌>>◌, fail_if,
}
use kotakpasir.Base.Int.{ℤ, is_pos}
use kotakpasir.Policy.{Policy}
use kotakpasir.Policy.Load.{load}
use kotakpasir.Runtime.{Runtime}
use kotakpasir.Sandbox.{Store}
use kotakpasir.Manager.{Manager}
use kotakpasir.Manager.Lifecycle.{sweep}
use kotakpasir.Manager.Reload.{new_manager, replace_policy}
use kotakpasir.Manager.Reload
use kotakpasir.Api.{Codec}
use kotakpasir.Api.Server.{Settings, Moment, Request, serve}

-- `policy.PolicyConfig`
pub record PolicyConfig : Type 0 where
  pub file : String
  pub required : Bool

-- The file system and the YAML decoder, at one moment.
pub record Files : Type 0 where
  pub read : String → Result String
  pub parse : String → Result Policy
  pub stat : String → Result (Unit {0})

-- The check of `serve` on the flag `require-policy`.
unfoldable pub check_required : Files → PolicyConfig → Result (Unit {0})
check_required f cfg =
    if cfg.required
    then (if cfg.file == ""
        then err (
            message
              "require-policy is set but no policy file is configured (set KP_POLICY_FILE or --policy)"
              [])
        else (elim (f.stat cfg.file) [
          | err e ↦ err (wrap "require-policy is set but policy file is unreadable: %w" [] e)
          | ok _ ↦ ok tt
        ]))
    else ok tt

-- The policy that `serve` starts with.
unfoldable pub first_policy : Files → PolicyConfig → Result Policy
first_policy f cfg = elim (check_required f cfg) [
  | err e ↦ err e
  | ok _ ↦ load f.read f.parse cfg.file
]

-- `policySource`
abbrev pub policy_source : String → String
policy_source path = if path == "" then "(defaults)" else path

-- What may happen to a running daemon: a request, a tick of the reaper, and a SIGHUP.
pub data Event (Body : Type 0) : Type 0 where
  requested : Moment → Request Body → Event Body
  ticked : ℕ → Event Body
  hung_up : Files → Event Body

module _ {R : Runtime} {S : Store} where
  -- `serve` up to the start of the manager.
  unfoldable pub boot : Files → PolicyConfig → ℤ → R.State → S.State → Result (Manager R S)
  boot f cfg log_cap world db = elim (first_policy f cfg) [
    | err e ↦ err e
    | ok pol ↦
        let (r, m) = Reload.start (new_manager world db (some pol) log_cap) in
        elim r [ err e ↦ err e | ok _ ↦ ok m ]
  ]

  -- One round of `reloadOnHUP`.
  unfoldable pub reload : Files → String → Manager R S → Manager R S
  reload f path m = if path == "" then m else (elim (load f.read f.parse path) [
    | err _ ↦ m
    | ok pol ↦ (replace_policy (some pol) m).1
  ])

module _ (K : Codec) {R : Runtime} {S : Store} where
  -- The goroutines of `serve`, each with one event.
  unfoldable pub react : Settings K.Body → PolicyConfig → Event K.Body → Manager R S → Manager R S
  react s cfg (requested at q) m = (serve K s at q m).1
  react s cfg (ticked now) m = sweep now m
  react s cfg (hung_up f) m = reload f cfg.file m

  -- The events of a run, in the order in which they are taken.
  unfoldable pub run :
      Settings K.Body → PolicyConfig → List (Event K.Body) → Manager R S → Manager R S
  run s cfg [] m = m
  run s cfg (e ∷ es) m = run s cfg es (react s cfg e m)
