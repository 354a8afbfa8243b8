-- ===== src/Manager/Lifecycle/Outcome.antt =====
-- What `Stop` and `Delete` leave behind.
use kotakpasir.Base.{
  ◌≡◌, refl, ap, ◌⊎◌, inl, inr, none, some, String, if◌then◌else◌, ◌==◌, string_eq, Error, Result,
  ok, err, arith, Result-cases,
}
use kotakpasir.Base.Dict.{erase}
use kotakpasir.Runtime.{Runtime}
use kotakpasir.Sandbox.{Sandbox, Store, stopped}
use kotakpasir.Sandbox.Contract.{Contract}
use kotakpasir.Manager.{Manager, drop_log_buffer}
use kotakpasir.Manager.Refresh.{refresh_db, refresh_rest}
use kotakpasir.Manager.Lifecycle.{stop, delete, remove_container}

-- The sandbox as `Stop` puts it back.
abbrev pub as_stopped : Sandbox → Sandbox
as_stopped sb = record sb { state = stopped }

module _ {R : Runtime} {S : Store} (C : Contract S) where
  -- The part of `Delete` behind the lookup.
  delete_found :
      (id other : String) (m : Manager R S) (sb : Sandbox)
      → C.IsGood m.db
      → (S.get id m.db).0 ≡ ok sb
      → let r = delete id m in
        C.IsGood r.1.db
        × (((r.0 ≡ ok tt)
              × (C.contents r.1.db other ≡ (if id == other then none else C.contents m.db other))
              × (r.1.logs ≡ erase id m.logs))
            ⊎ ((e : Error) × (r.0 ≡ err e)
                × (C.contents r.1.db other ≡ C.contents m.db other)
                × (r.1.logs ≡ m.logs)))
  unfolding delete drop_log_buffer
  delete_found id other m sb g h =
      let found : Manager R S = record m { db = (S.get id m.db).1 } in
      let cleared = remove_container sb found in
      let dropped = drop_log_buffer id (record cleared { db = (S.delete id cleared.db).1 }) in
      let same : cleared.db ≡ found.db = ground arith in
      let (good, kept, _) = C.get_law id other m.db g in
      ground (
        arith,
        C.delete_law id other cleared.db (rw same good),
        ap (λ db. C.contents db other) same,
        refresh_db C dropped other,
        refresh_rest dropped,
      )

  -- What `Delete` may do, seen at any id `other`.
  abbrev pub Deletes : String → String → Manager R S → Result (Unit {0}) × Manager R S → Type 0
  Deletes id other m r =
      C.IsGood r.1.db
      × (((r.0 ≡ ok tt)
            × (C.contents r.1.db other ≡ (if id == other then none else C.contents m.db other))
            × (r.1.logs ≡ erase id m.logs))
          ⊎ ((e : Error) × (r.0 ≡ err e)
              × (C.contents r.1.db other ≡ C.contents m.db other)
              × (r.1.logs ≡ m.logs)))

  delete_err :
      (id : String) (m : Manager R S) (e : Error)
      → (S.get id m.db).0 ≡ err e
      → delete id m ≡ (err e, record m { db = (S.get id m.db).1 })
  unfolding delete
  delete_err id m e h = ground (arith, h)

  delete_missing :
      (id other : String) (m : Manager R S) (e : Error)
      → C.IsGood m.db
      → (S.get id m.db).0 ≡ err e
      → Deletes id other m (delete id m) × ((delete id m).1.world ≡ m.world)
  delete_missing id other m e g h =
      let (good, kept, _) = C.get_law id other m.db g in
      rw (delete_err id m e h) ((good, inr (e, refl, kept, refl)), refl)

  -- A `Delete` that succeeds empties the id, keeps every other sandbox, and drops the log buffer of
  -- the id and no other. One that fails keeps every sandbox and every log buffer.
  pub delete-Deletes :
      (id other : String) (m : Manager R S) → C.IsGood m.db → Deletes id other m (delete id m)
  delete-Deletes id other m g = elim (Result-cases (S.get id m.db).0) [
    | inl (sb, h) ↦ delete_found id other m sb g h
    | inr (e, h) ↦ (delete_missing id other m e g h).0
  ]

  -- What `Stop` may do to a stored sandbox, seen at any id `other`.
  abbrev pub StopsTo : Sandbox → String → Manager R S → Result (Unit {0}) × Manager R S → Type 0
  StopsTo sb other m r =
      C.IsGood r.1.db
      × (r.1.logs ≡ m.logs)
      × (((r.0 ≡ ok tt)
            × (C.contents r.1.db other ≡ (
                if sb.id == other
                then some (C.kept (as_stopped sb) (C.contents m.db other))
                else C.contents m.db other)))
          ⊎ ((e : Error) × (r.0 ≡ err e) × (C.contents r.1.db other ≡ C.contents m.db other)))

  stop_found :
      (id other : String) (m : Manager R S) (sb : Sandbox)
      → C.IsGood m.db
      → (S.get id m.db).0 ≡ ok sb
      → StopsTo sb other m (stop id m)
  unfolding stop
  stop_found id other m sb g h = stopping (R.stop sb.runtime_id m.world).0 refl
    where
      got : Manager R S
      got = record m { db = (S.get id m.db).1; world = (R.stop sb.runtime_id m.world).1 }

      put_back : Manager R S
      put_back = record got { db = (S.put (as_stopped sb) got.db).1 }

      stopping :
          (r : Result (Unit {0}))
          → (R.stop sb.runtime_id m.world).0 ≡ r
          → StopsTo sb other m (stop id m)
      stopping (err e) q = ground (arith, h, C.get_law id other m.db g)
      stopping (ok _) q =
          let (good, kept, _) = C.get_law id other m.db g in
          ground (
            arith,
            h,
            C.put_law (as_stopped sb) got.db other good,
            refresh_db C put_back other,
            refresh_rest put_back,
          )

  -- `Stop` on a stored sandbox that the database returns: a success leaves it in the state `stopped`
  -- and every other sandbox as it was; a failure changes no sandbox. Log buffers stay.
  pub stop-StopsTo :
      (id other : String) (m : Manager R S) (sb : Sandbox)
      → C.IsGood m.db
      → (S.get id m.db).0 ≡ ok sb
      → StopsTo sb other m (stop id m)
  stop-StopsTo = stop_found
