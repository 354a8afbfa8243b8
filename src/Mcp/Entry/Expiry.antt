-- ===== src/Mcp/Entry/Expiry.antt =====
-- A session of the MCP server and the sandboxes that it does not name.
use kotakpasir.Base.{◌≡◌, ◌≢◌, inl, inr, refl, ◌∙◌, List, [], ◌∷◌, String, string_eq, arith, All}
use kotakpasir.Runtime.{Runtime}
use kotakpasir.Sandbox.{Store}
use kotakpasir.Sandbox.Contract.{Contract}
use kotakpasir.Manager.{Manager}
use kotakpasir.Manager.Create.Outcome.{create-IsConfined}
use kotakpasir.Manager.Lifecycle.{get, list, stop}
use kotakpasir.Manager.Lifecycle.Outcome.{delete-Deletes, stop-StopsTo}
use kotakpasir.Manager.Upkeep.{stop-Keeps, delete-Keeps, exec-Keeps}
use kotakpasir.Manager.Logs.{exec}
use kotakpasir.Manager.{log_buffer_for}
use kotakpasir.Mcp.{
  Texts, options_of, exec_options, sandbox_create, sandbox_list, sandbox_get, sandbox_exec,
  sandbox_stop, sandbox_delete,
}
use kotakpasir.Mcp.Entry.{
  ToolCall, to_create, to_list, to_get, to_exec, to_stop, to_delete, call, run,
}

-- A call that may change only what is stored under other ids.
abbrev pub IsElsewhere : String → ToolCall → Type 0
IsElsewhere other (to_create in' id now) = id ≢ other
IsElsewhere other to_list = Unit
IsElsewhere other (to_get id) = Unit
IsElsewhere other (to_exec in' now) = Unit
IsElsewhere other (to_stop id) = id ≢ other
IsElsewhere other (to_delete id) = id ≢ other

module _ {R : Runtime} {S : Store} (C : Contract S) where
  stop_elsewhere :
      (id other : String) (m : Manager R S)
      → C.IsGood m.db
      → id ≢ other
      → C.contents (stop id m).1.db other ≡ C.contents m.db other
  unfolding stop
  stop_elsewhere id other m g h = elim (C.get_law id id m.db g).2 [
    | inl (sb, e, held) ↦
        ground (arith, h, C.contents_id m.db id sb held, stop-StopsTo C id other m sb g e)
    | inr (inl (e, _)) ↦ ground (arith, e, (C.get_law id other m.db g).1)
    | inr (inr (x, e)) ↦ ground (arith, e, (C.get_law id other m.db g).1)
  ]

  abbrev Spares : String → Manager R S → Manager R S → Type 0
  Spares other m n = C.IsGood n.db × (C.contents n.db other ≡ C.contents m.db other)

  call-Spares :
      (t : Texts) (c : ToolCall) (other : String) (m : Manager R S)
      → C.IsGood m.db
      → IsElsewhere other c
      → Spares other m (call t c m)
  unfolding call sandbox_create sandbox_list sandbox_get sandbox_exec sandbox_stop sandbox_delete
      get list exec log_buffer_for
  call-Spares t (to_create in' id now) other m g h =
      let c = create-IsConfined C (options_of in') id now m g in
      (c.good, ground (arith, h, c.others other))
  call-Spares t to_list other m g h = C.list_law other m.db g
  call-Spares t (to_get id) other m g h =
      ((C.get_law id other m.db g).0, (C.get_law id other m.db g).1)
  call-Spares t (to_exec in' now) other m g h = (
    (exec-Keeps C in'.id (exec_options in') now m g).good,
    ground (arith, (C.get_law in'.id other m.db g).1),
  )
  call-Spares t (to_stop id) other m g h =
      ((stop-Keeps C id m g).good, stop_elsewhere id other m g h)
  call-Spares t (to_delete id) other m g h =
      ((delete-Keeps C id m g).good, ground (arith, h, delete-Deletes C id other m g))

  -- Whatever tools an agent calls, and however late: a good store stays good, and a sandbox that no call
  -- creates, stops or deletes stays in it as it was, also where its time to expire has passed.
  pub run_keeps :
      (t : Texts) (cs : List ToolCall) (other : String) (m : Manager R S)
      → C.IsGood m.db
      → All (IsElsewhere other) cs
      → C.IsGood (run t cs m).db × (C.contents (run t cs m).db other ≡ C.contents m.db other)
  unfolding run
  run_keeps t [] other m g h = (g, refl)
  run_keeps t (c ∷ cs) other m g h =
      let (good, same) = call-Spares t c other m g h.0 in
      let (good', same') = run_keeps t cs other (call t c m) good h.1 in (good', same' ∙ same)
