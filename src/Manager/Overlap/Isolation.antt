-- ===== src/Manager/Overlap/Isolation.antt =====
-- A call alone, and what no schedule of calls can do.
use kotakpasir.Base.{
  ℕ, zero, suc, ◌≡◌, ◌≢◌, inl, inr, refl, ◌∙◌, List, [], ◌∷◌, String, ◌==◌, string_eq, All, arith,
  Result-cases, Bool-cases,
}
use kotakpasir.Runtime.{Runtime}
use kotakpasir.Sandbox.{Store, stopped}
use kotakpasir.Sandbox.Contract.{Contract}
use kotakpasir.Manager.{Manager, drop_log_buffer}
use kotakpasir.Manager.Refresh.{refresh_db}
use kotakpasir.Manager.Lifecycle.{stop, delete}
use kotakpasir.Manager.Overlap.{
  Task, to_stop, stop_found, stop_halted, to_delete, delete_found, delete_removed, delete_cleared,
  to_refresh, finished, advance, advance_by, advance_at, interleave,
}

module _ {R : Runtime} {S : Store} where
  advance_by-stop :
      (id : String) (m : Manager R S)
      → advance_by 4 (to_stop id) m ≡ (finished (stop id m).0, (stop id m).1)
  unfolding advance_by advance stop
  advance_by-stop id m = elim (Result-cases (S.get id m.db).0) [
    | inr (e, g) ↦ ground (arith, g)
    | inl (sb, g) ↦ elim (Result-cases (R.stop sb.runtime_id m.world).0) [
      | inr (e, h) ↦ ground (arith, g, h)
      | inl (_, h) ↦
          elim (Result-cases (S.put (record sb { state = stopped }) (S.get id m.db).1).0) [
            | inr (e, p) ↦ ground (arith, g, h, p)
            | inl (_, p) ↦ ground (arith, g, h, p)
          ]
    ]
  ]

  advance_by-delete :
      (id : String) (m : Manager R S)
      → advance_by 5 (to_delete id) m ≡ (finished (delete id m).0, (delete id m).1)
  unfolding advance_by advance delete
  advance_by-delete id m = elim (Result-cases (S.get id m.db).0) [
    | inr (e, g) ↦ ground (arith, g)
    | inl (sb, g) ↦ elim (Bool-cases (sb.runtime_id == "")) [
      | inl blank ↦ elim (Result-cases (S.delete id (S.get id m.db).1).0) [
        | inr (e, h) ↦ ground (arith, g, blank, h)
        | inl (_, h) ↦ ground (arith, g, blank, h)
      ]
      | inr held ↦ elim (Result-cases (S.delete id (S.get id m.db).1).0) [
        | inr (e, h) ↦ ground (arith, g, held, h)
        | inl (_, h) ↦ ground (arith, g, held, h)
      ]
    ]
  ]

  -- The steps of one call with none of another between them are the method: `Stop` in four steps and
  -- `Delete` in five end with its result and leave the same manager.
  pub advance_by_outcome :
      (id : String) (m : Manager R S)
      → (advance_by 4 (to_stop id) m ≡ (finished (stop id m).0, (stop id m).1))
        × (advance_by 5 (to_delete id) m ≡ (finished (delete id m).0, (delete id m).1))
  advance_by_outcome id m = (advance_by-stop id m, advance_by-delete id m)

-- A call that may change only what is stored under other ids.
abbrev pub IsElsewhere : String → Task → Type 0
IsElsewhere other (to_stop id) = id ≢ other
IsElsewhere other (stop_found sb) = sb.id ≢ other
IsElsewhere other (stop_halted sb) = sb.id ≢ other
IsElsewhere other (to_delete id) = id ≢ other
IsElsewhere other (delete_found id sb) = id ≢ other
IsElsewhere other (delete_removed id) = id ≢ other
IsElsewhere other (delete_cleared id) = id ≢ other
IsElsewhere other to_refresh = Unit
IsElsewhere other (finished r) = Unit

module _ {R : Runtime} {S : Store} (C : Contract S) where
  -- A good store that holds the same under an id, and calls that stay elsewhere.
  abbrev Spares : String → Manager R S → Task × Manager R S → Type 0
  Spares other m r =
      IsElsewhere other r.0 × C.IsGood r.1.db × (C.contents r.1.db other ≡ C.contents m.db other)

  advance-Spares :
      (other : String) (t : Task) (m : Manager R S)
      → C.IsGood m.db
      → IsElsewhere other t
      → Spares other m (advance t m)
  unfolding advance drop_log_buffer
  advance-Spares other (to_stop id) m g h =
      let (good, same, what) = C.get_law id other m.db g in
      elim what [
        | inl (sb, e, held) ↦ ground (arith, e, h, good, same, C.contents_id m.db id sb held)
        | inr (inl (e, _)) ↦ ground (arith, e, good, same)
        | inr (inr (e, q)) ↦ ground (arith, q, good, same)
      ]
  advance-Spares other (stop_found sb) m g h = ground (arith, g, h)
  advance-Spares other (stop_halted sb) m g h =
      ground (arith, h, C.put_law (record sb { state = stopped }) m.db other g)
  advance-Spares other (to_delete id) m g h = ground (arith, h, C.get_law id other m.db g)
  advance-Spares other (delete_found id sb) m g h = ground (arith, g, h)
  advance-Spares other (delete_removed id) m g h = ground (arith, h, C.delete_law id other m.db g)
  advance-Spares other (delete_cleared id) m g h = (tt, g, refl)
  advance-Spares other to_refresh m g h =
      let (good, same) = refresh_db C m other g in (tt, good, same)
  advance-Spares other (finished r) m g h = (tt, g, refl)

  advance_at-Spares :
      (other : String) (n : ℕ) (ts : List Task) (m : Manager R S)
      → C.IsGood m.db
      → All (IsElsewhere other) ts
      → let r = advance_at n ts m in
        All (IsElsewhere other) r.0
        × C.IsGood r.1.db
        × (C.contents r.1.db other ≡ C.contents m.db other)
  unfolding advance_at
  advance_at-Spares other n [] m g h = (tt, g, refl)
  advance_at-Spares other zero (t ∷ ts) m g h =
      let (left, good, same) = advance-Spares other t m g h.0 in ((left, h.1), good, same)
  advance_at-Spares other (suc n) (t ∷ ts) m g h =
      let (left, good, same) = advance_at-Spares other n ts m g h.1 in ((h.0, left), good, same)

  -- Whatever calls of `Stop` and `Delete` overlap, and in whatever order their steps come: a good store
  -- stays good, and what it holds under an id that none of them is about stays what it was.
  pub interleave-Spares :
      (other : String) (schedule : List ℕ) (ts : List Task) (m : Manager R S)
      → C.IsGood m.db
      → All (IsElsewhere other) ts
      → let n = (interleave schedule ts m).1 in
        C.IsGood n.db × (C.contents n.db other ≡ C.contents m.db other)
  unfolding interleave
  interleave-Spares other [] ts m g h = (g, refl)
  interleave-Spares other (k ∷ ks) ts m g h =
      let (left, good, same) = advance_at-Spares other k ts m g h in
      let (good', same') =
        interleave-Spares other ks (advance_at k ts m).0 (advance_at k ts m).1 good left in
      (good', same' ∙ same)
