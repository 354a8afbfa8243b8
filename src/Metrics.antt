-- ===== src/Metrics.antt =====
-- internal/metrics/metrics.go: the recorder behind kpd's metrics page. The Prometheus client is a parameter:
-- a registry of instruments, each known by its name and the values of its labels. Values are natural
-- numbers, as all that is recorded is.
pub mod Totals
pub mod Balance
mod Tests
use kotakpasir.Base.{
  ℕ, zero, suc, ◌+◌, ◌≡◌, Bool, true, false, ◌&&◌, List, [], ◌∷◌, String, if◌then◌else◌, ◌==◌,
  string_eq,
}
use kotakpasir.Manager.{
  Event, sandbox_created, pool_hit, pool_miss, set_sandbox_active, reaper_swept,
}

-- What the recorder calls: `WithLabelValues(...).Inc()`, `Set` and `Add`; and what the page would say.
pub record Prometheus : Type 1 where
  pub State : Type 0
  pub new_registry : State
  pub inc : String → List String → State → State
  pub set : String → ℕ → State → State
  pub add : String → ℕ → State → State
  pub value : String → List String → State → ℕ

-- The names of the instruments that `New` registers.
abbrev pub created_total : String
created_total = "kpd_sandbox_created_total"

abbrev pub active_name : String
active_name = "kpd_sandbox_active"

abbrev pub hit_total : String
hit_total = "kpd_pool_hit_total"

abbrev pub miss_total : String
miss_total = "kpd_pool_miss_total"

abbrev pub swept_total : String
swept_total = "kpd_reaper_swept_total"

module _ (P : Prometheus) where
  -- `New`
  abbrev pub new : P.State
  new = P.new_registry

  -- The methods of `Kpd`.
  unfoldable pub record_one : Event → P.State → P.State
  record_one (sandbox_created image profile outcome) =
      P.inc created_total (image ∷ profile ∷ outcome ∷ [])
  record_one (set_sandbox_active n) = P.set active_name n
  record_one (pool_hit image) = P.inc hit_total (image ∷ [])
  record_one (pool_miss image) = P.inc miss_total (image ∷ [])
  record_one (reaper_swept n) = P.add swept_total n

  -- The calls of the recorder, of which the latest stands first.
  unfoldable pub record_all : List Event → P.State
  unfolding record_one
  record_all [] = new
  record_all (e ∷ es) = record_one e (record_all es)

-- The methods of `Noop`.
abbrev pub noop {ℓ} : {St : Type ℓ} → Event → St → St
noop e s = s
