-- ===== src/Manager/Logs/Running.antt =====
-- Commands run in running sandboxes only.
use kotakpasir.Base.{
  ne_of_==, ℕ, ◌≡◌, ◌≢◌, refl, inl, inr, some, [], ◌∷◌, String, string_eq, message, Error, Result,
  ok, err, arith,
}
use kotakpasir.Runtime.{Runtime}
use kotakpasir.Sandbox.{Sandbox, Store, ExecOptions, ExecResult, running, stopped}
use kotakpasir.Sandbox.Contract.{Contract}
use kotakpasir.Manager.{Manager}
use kotakpasir.Manager.Lifecycle.{stop}
use kotakpasir.Manager.Lifecycle.Outcome.{as_stopped, stop-StopsTo}
use kotakpasir.Manager.Logs.{exec}

stopped_idle : stopped ≢ running
unfolding string_eq
stopped_idle = ne_of_== stopped running refl

module _ {R : Runtime} {S : Store} (C : Contract S) where
  -- A command that was refused: an error, and neither the runtime nor the log buffers were touched.
  abbrev pub IsRefused : Manager R S → Result ExecResult × Manager R S → Type 0
  IsRefused m r = ((e : Error) × (r.0 ≡ err e)) × (r.1.world ≡ m.world) × (r.1.logs ≡ m.logs)

  exec_idle :
      (id : String) (opts : ExecOptions) (now : ℕ) (m : Manager R S) (sb : Sandbox)
      → (S.get id m.db).0 ≡ ok sb
      → sb.state ≢ running
      → exec id opts now m ≡ (
        err (message "sandbox %s is %s, not running" (id ∷ sb.state ∷ [])),
        record m { db = (S.get id m.db).1 },
      )
  unfolding exec
  exec_idle id opts now m sb h s = ground (arith, h, s)

  exec_missing :
      (id : String) (opts : ExecOptions) (now : ℕ) (m : Manager R S) (e : Error)
      → (S.get id m.db).0 ≡ err e
      → exec id opts now m ≡ (err e, record m { db = (S.get id m.db).1 })
  unfolding exec
  exec_missing id opts now m e h = ground (arith, h)

  -- What a lookup returns is not running, when what the store holds is not.
  exec-IsRefused :
      (id : String) (opts : ExecOptions) (now : ℕ) (m : Manager R S) (held : Sandbox)
      → C.IsGood m.db
      → C.contents m.db id ≡ some held
      → held.state ≢ running
      → IsRefused m (exec id opts now m)
  exec-IsRefused id opts now m held g h s =
      let (_, _, found) = C.get_law id id m.db g in
      elim found [
        | inl (sb, q, c) ↦
            let same : sb ≡ held = ground (arith, h, c) in
            let idle : sb.state ≢ running = rw same s in
            rw (exec_idle id opts now m sb q idle) ((_, refl), refl, refl)
        | inr (inl (q, c)) ↦ rw (exec_missing id opts now m _ q) ((_, refl), refl, refl)
        | inr (inr (e, q)) ↦ rw (exec_missing id opts now m e q) ((_, refl), refl, refl)
      ]

  -- After a `Stop` that succeeded, `Exec` on the sandbox is refused: it returns an error, and neither
  -- calls the runtime nor writes to a log buffer.
  pub exec-stop :
      (id : String) (opts : ExecOptions) (now : ℕ) (m : Manager R S) (sb : Sandbox)
      → C.IsGood m.db
      → (S.get id m.db).0 ≡ ok sb
      → (stop id m).0 ≡ ok tt
      → IsRefused (stop id m).1 (exec sb.id opts now (stop id m).1)
  exec-stop id opts now m sb g h done =
      let (good, _, what) = stop-StopsTo C id sb.id m sb g h in
      let held = C.kept (as_stopped sb) (C.contents m.db sb.id) in
      let stored : C.contents (stop id m).1.db sb.id ≡ some held = ground (arith, what, done) in
      let idle : held.state ≢ running =
        rw (C.kept_state (as_stopped sb) (C.contents m.db sb.id)) stopped_idle in
      exec-IsRefused sb.id opts now (stop id m).1 held good stored idle
