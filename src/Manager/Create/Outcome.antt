-- ===== src/Manager/Create/Outcome.antt =====
-- What `Create` leaves in the store and in the manager.
use kotakpasir.Base.{
  ℕ, ◌≡◌, refl, sym, ap, subst, ◌∙◌, inl, inr, Option, none, some, String, string_eq, Error, Result,
  ok, err, arith, Result-cases,
}
use kotakpasir.Policy.{Resolved}
use kotakpasir.Policy.Resolve.{resolve}
use kotakpasir.Runtime.{Runtime, Handle}
use kotakpasir.Sandbox.{Sandbox, Store, CreateOptions, error}
use kotakpasir.Sandbox.Contract.{Contract}
use kotakpasir.Manager.{Manager, Event, sandbox_created, pool_miss, pool_hit, record_event}
use kotakpasir.Manager.Pools.{try_claim}
use kotakpasir.Manager.Create.{spec_of, enter, cold_start, provide, create, new_sandbox, request_of}
use kotakpasir.Manager.Create.Entry.{
  launched, IsConfined, IsStored, enter-IsConfined, enter_ok, put-IsConfined,
}
use kotakpasir.Manager.Create.Origin.{IsFor, IsHoused, new_sandbox-IsFor, provide-IsHoused}

module _ {R : Runtime} {S : Store} (C : Contract S) where
  -- What a creation must meet: the manager behind it is confined, and a sandbox that it returns is
  -- the one that was to be made, launched and stored.
  record IsCreation (sb : Sandbox) (m : Manager R S) (r : Result Sandbox × Manager R S)
      : Type 0 where
    confined : IsConfined C sb.id m r.1
    made :
        (out : Sandbox) → r.0 ≡ ok out → (out ≡ launched sb out.runtime_id) × IsStored C out m r.1

  enter-IsCreation :
      (source : Event) (profile runtime_id : String) (sb : Sandbox) (m n : Manager R S)
      → C.IsGood n.db
      → IsConfined C sb.id m n
      → n.db ≡ m.db
      → IsCreation sb m (enter source profile (launched sb runtime_id) n)
  enter-IsCreation source profile runtime_id sb m n g c same =
      let sb' = launched sb runtime_id in
      let inner = enter-IsConfined C source profile sb' n g in
      record {
        confined = record {
          good = inner.good;
          others = λ other. ground (arith, inner.others other, c.others other);
          policy = inner.policy ∙ c.policy;
          started = inner.started ∙ c.started;
          log_cap = inner.log_cap ∙ c.log_cap;
          logs = inner.logs ∙ c.logs;
        };
        made = λ out h.
            let (is_launched, stored) = enter_ok C source profile sb' out n g h in
            (
              is_launched ∙ ap (λ (o : Sandbox). launched sb o.runtime_id) (sym is_launched),
              record {
                state = ap (λ (o : Sandbox). o.state) is_launched;
                stored = rw (is_launched, ← same) stored;
              },
            );
      }

  cold_start-IsCreation :
      (opts : CreateOptions) (r : Resolved) (sb : Sandbox) (m n : Manager R S)
      → C.IsGood n.db
      → IsConfined C sb.id m n
      → n.db ≡ m.db
      → IsCreation sb m (cold_start opts r sb n)
  unfolding cold_start
  cold_start-IsCreation opts r sb m n g c same =
      answered (R.create (spec_of r sb.id) n.world).0 refl
    where
      n' : Manager R S
      n' = record n { world = (R.create (spec_of r sb.id) n.world).1 }

      n'-IsConfined : IsConfined C sb.id m n'
      n'-IsConfined = record {
        good = c.good;
        others = c.others;
        policy = c.policy;
        started = c.started;
        log_cap = c.log_cap;
        logs = c.logs;
      }

      failed :
          IsConfined C sb.id n' (record n' { db = (S.put (record sb { state = error }) n'.db).1 })
      failed = put-IsConfined C (record sb { state = error }) n' g

      answered :
          (a : Result Handle)
          → (R.create (spec_of r sb.id) n.world).0 ≡ a
          → IsCreation sb m (cold_start opts r sb n)
      answered (ok h) e =
          rw (e, cold_start)
            (enter-IsCreation (pool_miss r.image) opts.profile h.id sb m n' g n'-IsConfined same)
      answered (err x) e =
          rw (e, cold_start)
            (record {
              confined = record {
                good = failed.good;
                others = λ other. ground (arith, failed.others other, c.others other);
                policy = c.policy;
                started = c.started;
                log_cap = c.log_cap;
                logs = c.logs;
              };
              made = λ out h. cc;
            })

  try_claim_rest :
      (r : Resolved) (m : Manager R S)
      → let n = (try_claim r m).1 in
        (n.db ≡ m.db)
        × (n.policy ≡ m.policy)
        × (n.started ≡ m.started)
        × (n.log_cap ≡ m.log_cap)
        × (n.logs ≡ m.logs)
        × (n.world ≡ m.world)
  unfolding try_claim
  try_claim_rest r m = ground arith

  try_claim-IsConfined :
      (r : Resolved) (id : String) (m : Manager R S)
      → C.IsGood m.db
      → IsConfined C id m (try_claim r m).1
  try_claim-IsConfined r id m g =
      let (db, policy, started, log_cap, logs, _) = try_claim_rest r m in
      record {
        good = rw db g;
        others = λ other. inr (rw db refl);
        policy = policy;
        started = started;
        log_cap = log_cap;
        logs = logs;
      }

  provide-IsCreation :
      (opts : CreateOptions) (r : Resolved) (sb : Sandbox) (m : Manager R S)
      → C.IsGood m.db
      → IsCreation sb m (provide opts r sb m)
  unfolding provide
  provide-IsCreation opts r sb m g = claimed (try_claim r m).0 refl
    where
      confined : IsConfined C sb.id m (try_claim r m).1
      confined = try_claim-IsConfined r sb.id m g

      claimed : (c : Option String) → (try_claim r m).0 ≡ c → IsCreation sb m (provide opts r sb m)
      claimed (some id) e =
          rw (e, provide)
            (enter-IsCreation (pool_hit r.image) opts.profile id sb m (try_claim r m).1
              confined.good confined (try_claim_rest r m).0)
      claimed none e =
          rw (e, provide)
            (cold_start-IsCreation opts r sb m (try_claim r m).1 confined.good confined
              (try_claim_rest r m).0)

  create_resolved :
      (opts : CreateOptions) (id : String) (now : ℕ) (m : Manager R S) (r : Resolved)
      → resolve m.policy (request_of opts) ≡ ok r
      → create opts id now m ≡ provide opts r (new_sandbox r id now) m
  unfolding create
  create_resolved opts id now m r e = rw (e, create)

  create_denied :
      (opts : CreateOptions) (id : String) (now : ℕ) (m : Manager R S) (x : Error)
      → resolve m.policy (request_of opts) ≡ err x
      → create opts id now m
        ≡ (err x, record_event (sandbox_created opts.image opts.profile "policy_denied") m)
  unfolding create
  create_denied opts id now m x e = rw (e, create)

  -- Whatever `Create` returns, only the new id may have changed in the store, and the policy, the
  -- started flag and the log buffers are as before.
  pub create-IsConfined :
      (opts : CreateOptions) (id : String) (now : ℕ) (m : Manager R S)
      → C.IsGood m.db
      → IsConfined C id m (create opts id now m).1
  unfolding new_sandbox
  create-IsConfined opts id now m g = elim (Result-cases (resolve m.policy (request_of opts))) [
    | inl (r, e) ↦
        rw (create_resolved opts id now m r e)
          (provide-IsCreation opts r (new_sandbox r id now) m g).confined
    | inr (x, e) ↦ rw (create_denied opts id now m x e) (record {
      good = g;
      others = λ other. inr refl;
      policy = refl;
      started = refl;
      log_cap = refl;
      logs = refl;
    })
  ]

  -- When `Create` returns a sandbox, the request was resolved; the sandbox has the new id, the time, and
  -- the name, image, CPUs, memory, environment, labels and time to live of the resolved request; it runs,
  -- and the store holds it under that id. Its container is the one at the end of the open pool of its
  -- image, and then the runtime was not asked, or the one that the runtime created for this request.
  pub create-IsStored :
      (opts : CreateOptions) (id : String) (now : ℕ) (m : Manager R S) (out : Sandbox)
      → C.IsGood m.db
      → (create opts id now m).0 ≡ ok out
      → (r : Resolved) × (resolve m.policy (request_of opts) ≡ ok r)
        × IsFor r id now out
        × IsHoused r id out m (create opts id now m).1
        × IsStored C out m (create opts id now m).1
  unfolding new_sandbox
  create-IsStored opts id now m out g h = elim (Result-cases (resolve m.policy (request_of opts))) [
    | inl (r, e) ↦
        let same = create_resolved opts id now m r e in
        let done = ap (λ (p : Result Sandbox × Manager R S). p.0) (sym same) ∙ h in
        let sb = new_sandbox r id now in
        let (is_launched, stored) = (provide-IsCreation opts r sb m g).made out done in
        (
          r,
          e,
          new_sandbox-IsFor r id now out is_launched,
          subst (λ (p : Result Sandbox × Manager R S). IsHoused r id out m p.1) (sym same)
              (provide-IsHoused opts r sb out m done),
          rw same stored,
        )
    | inr (x, e) ↦ cc (h, create_denied opts id now m x e)
  ]
