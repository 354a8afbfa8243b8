-- ===== src/Mcp/Entry.antt =====
-- cmd/kpmcp/main.go: the MCP server from its start on, as the list of the tools that an agent calls.
-- Connecting to Docker, opening the database, reading the policy file and decoding it are parameters; the
-- transport and the signals are not modelled.
pub mod Expiry
pub mod Uptime
use kotakpasir.Base.{ℕ, some, List, [], ◌∷◌, String, Result, ok, err}
use kotakpasir.Base.Int.{pos}
use kotakpasir.Policy.{Policy}
use kotakpasir.Policy.Load.{load}
use kotakpasir.Runtime.{Runtime}
use kotakpasir.Sandbox.{Store}
use kotakpasir.Manager.{Manager}
use kotakpasir.Manager.Reload.{new_manager}
use kotakpasir.Mcp.{
  CreateInput, ExecInput, Texts, sandbox_create, sandbox_list, sandbox_get, sandbox_exec,
  sandbox_stop, sandbox_delete,
}

-- A call of a tool; a creation comes with its new id, and with the time, as a command does.
pub data ToolCall : Type 0 where
  to_create : CreateInput → String → ℕ → ToolCall
  to_list : ToolCall
  to_get : String → ToolCall
  to_exec : ExecInput → ℕ → ToolCall
  to_stop : String → ToolCall
  to_delete : String → ToolCall

module _ {R : Runtime} {S : Store} where
  -- `run` up to the server. It does not call `Start` of the manager.
  unfoldable pub boot :
      (String → Result String)
      → (String → Result Policy)
      → String
      → Result R.State
      → Result S.State
      → Result (Manager R S)
  boot read parse path connected opened = elim (load read parse path) [
    | err e ↦ err e
    | ok pol ↦ elim connected [
      | err e ↦ err e
      | ok world ↦ elim opened [
        | err e ↦ err e
        | ok db ↦ ok (new_manager world db (some pol) (pos 0))
      ]
    ]
  ]

  -- What a call leaves of the manager.
  unfoldable pub call : Texts → ToolCall → Manager R S → Manager R S
  call t (to_create in' id now) m = (sandbox_create t in' id now m).1
  call t to_list m = (sandbox_list t m).1
  call t (to_get id) m = (sandbox_get t id m).1
  call t (to_exec in' now) m = (sandbox_exec t in' now m).1
  call t (to_stop id) m = (sandbox_stop t id m).1
  call t (to_delete id) m = (sandbox_delete t id m).1

  -- The calls of a session.
  unfoldable pub run : Texts → List ToolCall → Manager R S → Manager R S
  run t [] m = m
  run t (c ∷ cs) m = run t cs (call t c m)
