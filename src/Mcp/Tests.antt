-- ===== src/Mcp/Tests.antt =====
-- A creation through both servers, and a session of the MCP server.
use kotakpasir.Base.{
  ℕ, ◌≡◌, ◌≢◌, ◌⊎◌, ◌&&◌, ◌==◌, refl, false, some, List, [], ◌∷◌, String, string_eq, Error, Result,
  ok, err, All, ne_of_==,
}
use kotakpasir.Base.Int.{pos, int_eq}
use kotakpasir.Policy.{Policy}
use kotakpasir.Policy.Load.{load}
use kotakpasir.Policy.Validate.{validate}
use kotakpasir.Policy.Tests.{team_policy}
use kotakpasir.Runtime.Counting.{counting}
use kotakpasir.Store.Tests.{two, two-IsNodup}
use kotakpasir.Manager.{Manager}
use kotakpasir.Manager.Reload.{new_manager}
use kotakpasir.Manager.Tests.{node, disk, disk-Contract}
use kotakpasir.Metrics.Totals.{hits, misses}
use kotakpasir.Metrics.Balance.{successes}
use kotakpasir.Api.Handlers.{handle_create, reply}
use kotakpasir.Api.Tests.{asked, simple}
use kotakpasir.Mcp.{CreateInput, SandboxOutput, Texts, sandbox_create}
use kotakpasir.Mcp.Entry.{ToolCall, to_create, to_list, to_delete, boot, run}
use kotakpasir.Mcp.Entry.Uptime.{run-boot_cold}
use kotakpasir.Mcp.Entry.Expiry.{IsElsewhere, run_keeps}
use kotakpasir.Mcp.Agreement.{request_of, view_of, sandbox_create-handle_create}

abbrev alpine_input : CreateInput
alpine_input = record {
  image = "alpine:latest";
  profile = "";
  name = "scratch";
  cmd = [];
  env = [];
  cpus = pos 0;
  memory_mb = pos 0;
  ttl_sec = pos 60;
}

abbrev no_texts : Texts
no_texts = record { bytes = λ (s : String). []; count = λ (n : ℕ). [] }

alpine_named : (alpine_input.image == "" && alpine_input.profile == "") ≡ false
unfolding string_eq
alpine_named = refl

sandbox_create-handle_create_example :
    let (r, n) = sandbox_create no_texts alpine_input "new" 7 node in
    let (answer, n') = handle_create simple (asked (request_of alpine_input)) "new" 7 node in
    (n ≡ n')
    × (((e : Error) × (r ≡ err e) × (answer.status ≢ 201))
        ⊎ ((text : String) × (out : SandboxOutput) × (r
              ≡ ok (record { text = some (no_texts.bytes text); output = out }))
            × (answer ≡ reply simple 201 (simple.view (view_of out)))))
sandbox_create-handle_create_example =
    sandbox_create-handle_create simple no_texts alpine_input (asked (request_of alpine_input))
      "new" 7 node refl alpine_named

-- A creation, a look at the list, and the end of another sandbox.
abbrev session : List ToolCall
session = to_create alpine_input "new" 7 ∷ to_list ∷ to_delete "job" ∷ []

abbrev fresh : Manager counting disk
fresh = new_manager 0 two (some team_policy) (pos 0)

abbrev read_file : String → Result String
read_file path = ok "images:"

abbrev parse_file : String → Result Policy
parse_file text = ok team_policy

fresh-boot :
    boot {R = counting} {S = disk} read_file parse_file "kp.yaml" (ok 0) (ok two) ≡ ok fresh
unfolding boot load string_eq validate int_eq
fresh-boot = refl

run-boot_cold_example :
    let counted = (run no_texts session fresh).metrics in
    (hits "alpine:latest" counted ≡ 0)
    × (misses "alpine:latest" counted ≡ successes "alpine:latest" counted)
run-boot_cold_example =
    run-boot_cold no_texts read_file parse_file "kp.yaml" (ok 0) (ok two) session fresh
      "alpine:latest" fresh-boot

session-IsElsewhere : All (IsElsewhere "shell") session
unfolding string_eq
session-IsElsewhere = (ne_of_== "new" "shell" refl, (tt, (ne_of_== "job" "shell" refl, tt)))

fresh-IsNodup : disk-Contract.IsGood fresh.db
unfolding new_manager
fresh-IsNodup = two-IsNodup

run_keeps_example :
    disk-Contract.IsGood (run no_texts session fresh).db
    × (disk-Contract.contents (run no_texts session fresh).db "shell"
        ≡ disk-Contract.contents fresh.db "shell")
run_keeps_example =
    run_keeps disk-Contract no_texts session "shell" fresh fresh-IsNodup session-IsElsewhere
