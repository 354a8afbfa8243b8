-- ===== src/Manager.antt =====
-- internal/sandbox/manager.go: the manager's state and the parts that its methods share.
-- The runtime and the store are parameters; their states are fields. The clock and the source of
-- ids are arguments of the methods that read them. Log lines are left out.
pub mod Pools
pub mod Create
pub mod Lifecycle
pub mod Logs
pub mod Reload
pub mod Health
mod Refresh
pub mod Upkeep
pub mod Overlap
pub mod Tests
use kotakpasir.Base.{
  ℕ, zero, suc, Bool, true, false, Option, none, some, List, [], ◌∷◌, ◌++◌, String, if◌then◌else◌,
  ◌==◌, string_eq, Error, Result, ok, err,
}
use kotakpasir.Base.Dict.{Dict, lookup, insert, erase}
use kotakpasir.Base.Int.{ℤ, pos, is_pos}
use kotakpasir.Base.State.{Method}
use kotakpasir.Policy.{Policy}
use kotakpasir.Pool.{Pool}
use kotakpasir.LogBuf
use kotakpasir.LogBuf.{Buffer}
use kotakpasir.Runtime.{Runtime}
use kotakpasir.Sandbox.{Sandbox, Store, running}

-- The calls of `metrics.Recorder`.
pub data Event : Type 0 where
  sandbox_created : String → String → String → Event
  pool_hit : String → Event
  pool_miss : String → Event
  set_sandbox_active : ℕ → Event
  reaper_swept : ℕ → Event

pub record Manager (R : Runtime) (S : Store) : Type 0 where
  pub world : R.State
  pub db : S.State
  pub policy : Policy
  pub pools : Dict Pool
  pub started : Bool
  pub metrics : List Event
  pub log_cap : ℤ
  pub logs : Dict Buffer

-- `DefaultLogBufferBytes`
abbrev pub default_log_buffer_bytes : ℤ
default_log_buffer_bytes = pos 262144

-- The sandboxes that `refreshActive` counts.
count_running : List Sandbox → ℕ
count_running [] = 0
count_running (sb ∷ sbs) = let n = count_running sbs in if sb.state == running then suc n else n

module _ {R : Runtime} {S : Store} where
  -- The latest event stands first.
  abbrev pub record_event : Event → Manager R S → Manager R S
  record_event e m = record m { metrics = e ∷ m.metrics }

  -- The calls of the store and of the runtime, on the manager's state.
  abbrev pub on_store {ℓ} : {A : Type ℓ} → (S.State → Result A × S.State) → Method (Manager R S) A
  on_store f m = let (r, db) = f m.db in (r, record m { db = db })

  abbrev pub on_runtime {ℓ} : {A : Type ℓ} → (R.State → Result A × R.State) → Method (Manager R S) A
  on_runtime f m = let (r, world) = f m.world in (r, record m { world = world })

  -- `logBufferFor`: `none` when capture is disabled.
  unfoldable pub log_buffer_for : String → Manager R S → Option Buffer × Manager R S
  log_buffer_for id m =
      if is_pos m.log_cap
      then elim (lookup id m.logs) [
        | some b ↦ (some b, m)
        | none ↦ let b = LogBuf.new m.log_cap in (some b, record m { logs = insert id b m.logs })
      ]
      else (none, m)

  -- `dropLogBuffer`
  unfoldable pub drop_log_buffer : String → Manager R S → Manager R S
  drop_log_buffer id m = record m { logs = erase id m.logs }

  -- `refreshActive`
  unfoldable pub refresh_active : Manager R S → Manager R S
  unfolding count_running
  refresh_active m =
      let (listed, db) = S.list m.db in
      elim listed [
        | err _ ↦ record m { db = db }
        | ok sbs ↦ record_event (set_sandbox_active (count_running sbs)) (record m { db = db })
      ]
