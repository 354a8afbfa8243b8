-- ===== src/Manager/Create/Entry.antt =====
-- What the common end of both ways of creation leaves in the store and in the manager.
use kotakpasir.Base.{
  ◌≡◌, refl, ◌⊎◌, some, String, if◌then◌else◌, ◌==◌, string_eq, Error, ok, err, arith,
}
use kotakpasir.Runtime.{Runtime}
use kotakpasir.Sandbox.{Sandbox, Store, running}
use kotakpasir.Sandbox.Contract.{Contract}
use kotakpasir.Manager.{Manager, Event, sandbox_created, record_event}
use kotakpasir.Manager.Refresh.{refresh_db, refresh_rest}
use kotakpasir.Manager.Create.{enter}

-- A container was found: the sandbox gets its id and runs.
abbrev pub launched : Sandbox → String → Sandbox
launched sb runtime_id = record sb { runtime_id = runtime_id; state = running }

module _ {R : Runtime} {S : Store} (C : Contract S) where
  -- Nothing but the store of one sandbox, the pools, the runtime and the metrics has changed.
  pub record IsConfined (id : String) (m n : Manager R S) : Type 0 where
    pub good : C.IsGood n.db
    pub others : (other : String) → (id ≡ other) ⊎ (C.contents n.db other ≡ C.contents m.db other)
    pub policy : n.policy ≡ m.policy
    pub started : n.started ≡ m.started
    pub log_cap : n.log_cap ≡ m.log_cap
    pub logs : n.logs ≡ m.logs

  -- The sandbox that a creation returns is stored under its id, and runs.
  pub record IsStored (sb : Sandbox) (m n : Manager R S) : Type 0 where
    pub state : sb.state ≡ running
    pub stored : C.contents n.db sb.id ≡ some (C.kept sb (C.contents m.db sb.id))

  pub enter_db :
      (source : Event) (profile : String) (sb : Sandbox) (m : Manager R S) (id : String)
      → C.IsGood m.db
      → let r = enter source profile sb m in
        C.IsGood r.1.db
        × (((r.0 ≡ ok sb)
              × (C.contents r.1.db id ≡ (
                  if sb.id == id
                  then some (C.kept sb (C.contents m.db id))
                  else C.contents m.db id)))
            ⊎ ((e : Error) × (r.0 ≡ err e) × (C.contents r.1.db id ≡ C.contents m.db id)))
  unfolding enter
  enter_db source profile sb m id g =
      let noted : Manager R S =
        record_event (sandbox_created sb.image profile "success")
          (record_event source (record m { db = (S.put sb m.db).1 })) in
      ground (arith, C.put_law sb m.db id g, refresh_db C noted id)

  pub enter_rest :
      (source : Event) (profile : String) (sb : Sandbox) (m : Manager R S)
      → let n = (enter source profile sb m).1 in
        (n.policy ≡ m.policy)
        × (n.started ≡ m.started)
        × (n.log_cap ≡ m.log_cap)
        × (n.logs ≡ m.logs)
        × (n.world ≡ m.world)
        × (n.pools ≡ m.pools)
  unfolding enter
  enter_rest source profile sb m =
      let noted : Manager R S =
        record_event (sandbox_created sb.image profile "success")
          (record_event source (record m { db = (S.put sb m.db).1 })) in
      ground (arith, refresh_rest noted)

  pub enter-IsConfined :
      (source : Event) (profile : String) (sb : Sandbox) (m : Manager R S)
      → C.IsGood m.db
      → IsConfined sb.id m (enter source profile sb m).1
  enter-IsConfined source profile sb m g = record {
    good = (enter_db source profile sb m sb.id g).0;
    others = λ other. ground (arith, enter_db source profile sb m other g);
    policy = (enter_rest source profile sb m).0;
    started = (enter_rest source profile sb m).1;
    log_cap = (enter_rest source profile sb m).2;
    logs = (enter_rest source profile sb m).3;
  }

  pub enter_ok :
      (source : Event) (profile : String) (sb out : Sandbox) (m : Manager R S)
      → C.IsGood m.db
      → (enter source profile sb m).0 ≡ ok out
      → (out ≡ sb)
        × (C.contents (enter source profile sb m).1.db sb.id
            ≡ some (C.kept sb (C.contents m.db sb.id)))
  enter_ok source profile sb out m g h = ground (arith, enter_db source profile sb m sb.id g)

  pub put-IsConfined :
      (sb : Sandbox) (m : Manager R S)
      → C.IsGood m.db
      → IsConfined sb.id m (record m { db = (S.put sb m.db).1 })
  put-IsConfined sb m g = record {
    good = (C.put_law sb m.db sb.id g).0;
    others = λ other. ground (arith, C.put_law sb m.db other g);
    policy = refl;
    started = refl;
    log_cap = refl;
    logs = refl;
  }
