-- ===== src/Manager/Overlap.antt =====
-- internal/sandbox/manager.go: calls of `Stop` and `Delete` that overlap. Neither holds a lock from
-- its lookup to its end: a call is a task, and one step of it is one call of the store, of the runtime
-- or of the log buffers, each of which is atomic.
pub mod Isolation
mod Tests
use kotakpasir.Base.{
  ℕ, zero, suc, List, [], ◌∷◌, String, if◌then◌else◌, ◌==◌, string_eq, Error, Result, ok, err,
}
use kotakpasir.Runtime.{Runtime}
use kotakpasir.Sandbox.{Sandbox, Store, stopped}
use kotakpasir.Manager.{Manager, drop_log_buffer, refresh_active}

-- How far a call has come.
pub data Task : Type 0 where
  to_stop : String → Task
  stop_found : Sandbox → Task
  stop_halted : Sandbox → Task
  to_delete : String → Task
  delete_found : String → Sandbox → Task
  delete_removed : String → Task
  delete_cleared : String → Task
  to_refresh : Task
  finished : Result (Unit {0}) → Task

module _ {R : Runtime} {S : Store} where
  -- The next step of a call.
  unfoldable pub advance : Task → Manager R S → Task × Manager R S
  advance (to_stop id) m =
      let (r, db) = S.get id m.db in
      (elim r [ ok sb ↦ stop_found sb | err e ↦ finished (err e) ], record m { db = db })
  advance (stop_found sb) m =
      let (r, world) = R.stop sb.runtime_id m.world in
      (elim r [ ok _ ↦ stop_halted sb | err e ↦ finished (err e) ], record m { world = world })
  advance (stop_halted sb) m =
      let (r, db) = S.put (record sb { state = stopped }) m.db in
      (elim r [ ok _ ↦ to_refresh | err e ↦ finished (err e) ], record m { db = db })
  advance (to_delete id) m =
      let (r, db) = S.get id m.db in
      (elim r [ ok sb ↦ delete_found id sb | err e ↦ finished (err e) ], record m { db = db })
  advance (delete_found id sb) m = (
    delete_removed id,
    if sb.runtime_id == "" then m else record m { world = (R.remove sb.runtime_id m.world).1 },
  )
  advance (delete_removed id) m =
      let (r, db) = S.delete id m.db in
      (elim r [ ok _ ↦ delete_cleared id | err e ↦ finished (err e) ], record m { db = db })
  advance (delete_cleared id) m = (to_refresh, drop_log_buffer id m)
  advance to_refresh m = (finished (ok tt), refresh_active m)
  advance (finished r) m = (finished r, m)

  -- So many steps of one call, without any other between them.
  unfoldable pub advance_by : ℕ → Task → Manager R S → Task × Manager R S
  advance_by zero t m = (t, m)
  advance_by (suc n) t m = let (t', m') = advance t m in advance_by n t' m'

  -- One step of the call at a place in the list; none where there is no call at that place.
  unfoldable pub advance_at : ℕ → List Task → Manager R S → List Task × Manager R S
  advance_at n [] m = ([], m)
  advance_at zero (t ∷ ts) m = let (t', m') = advance t m in (t' ∷ ts, m')
  advance_at (suc n) (t ∷ ts) m = let (ts', m') = advance_at n ts m in (t ∷ ts', m')

  -- The calls under a schedule, which says whose step is next.
  unfoldable pub interleave : List ℕ → List Task → Manager R S → List Task × Manager R S
  interleave [] ts m = (ts, m)
  interleave (n ∷ ns) ts m = let (ts', m') = advance_at n ts m in interleave ns ts' m'
