-- ===== src/Daemon/Config.antt =====
-- internal/config/config.go: the daemon's configuration. The environment is the list of its entries, after
-- `godotenv.Load`; the parsers of numbers and durations are parameters.
use kotakpasir.Base.{
  Bool, true, false, ◌||◌, String, if◌then◌else◌, ◌==◌, string_eq, List, Result, ok, err,
}
use kotakpasir.Base.Int.{ℤ, pos}
use kotakpasir.Base.Text.{Chars, to_lower}
use kotakpasir.Proxy.{getenv, env_or}
use kotakpasir.Daemon.{PolicyConfig}

pub record Parsers : Type 0 where
  pub atoi : String → Result ℤ
  pub duration : String → Result ℤ

-- `Config` and its parts; durations are in nanoseconds.
pub record Config : Type 0 where
  pub addr : String
  pub token : String
  pub shutdown_timeout : ℤ
  pub log_level : String
  pub db_path : String
  pub interval : ℤ
  pub policy : PolicyConfig
  pub buffer_bytes : ℤ

-- The levels of `slog`.
pub data Level : Type 0 where
  debug : Level
  info : Level
  warn : Level
  error : Level

-- `parseEnv`, and with the two parsers `envInt` and `envDuration`.
abbrev pub parse_env {ℓ} : {A : Type ℓ} → String → A → (String → Result A) → List String → A
parse_env key def parse env =
    if getenv key env == "" then def else elim (parse (getenv key env)) [ err _ ↦ def | ok v ↦ v ]

-- `envBool`
abbrev pub env_bool : Chars → String → Bool → List String → Bool
env_bool chars key def env =
    let raw = to_lower chars (getenv key env) in
    if raw == "1" || raw == "true" || raw == "yes" || raw == "on"
    then true
    else if raw == "0" || raw == "false" || raw == "no" || raw == "off"
    then false
    else def

-- `Load`
unfoldable pub load_config : Chars → Parsers → List String → Config
load_config chars p env = record {
  addr = env_or "KPD_ADDR" ":8080" env;
  token = env_or "KPD_TOKEN" "" env;
  shutdown_timeout = parse_env "KPD_SHUTDOWN_TIMEOUT" (pos 15000000000) p.duration env;
  log_level = env_or "KPD_LOG_LEVEL" "info" env;
  db_path = env_or "KPD_DB" "./kotakpasir.db" env;
  interval = parse_env "KP_REAPER_INTERVAL" (pos 30000000000) p.duration env;
  policy = record {
    file = env_or "KP_POLICY_FILE" "" env;
    required = env_bool chars "KP_REQUIRE_POLICY" false env;
  };
  buffer_bytes = parse_env "KP_LOG_BUFFER_BYTES" (pos 262144) p.atoi env;
}

-- `ParseLevel`
abbrev pub parse_level : String → Level
parse_level s =
    if s == "debug"
    then debug
    else if s == "warn"
    then warn
    else if s == "error"
    then error
    else info
