-- ===== src/Cli/Tests.antt =====
-- `kp` against a server that runs one sandbox, and a round of `watch`.
use kotakpasir.Base.{
  ◌≡◌, ◌≢◌, refl, inr, false, true, none, List, [], ◌∷◌, map, String, string_eq, string_dec, nat_eq,
  All, IsNodup, sym, subst, ok, ne_of_==,
}
use kotakpasir.Base.Dict.{lookup}
use kotakpasir.Base.Int.{ℤ, pos, int_eq}
use kotakpasir.Manager.Logs
use kotakpasir.Manager.Logs.{writes}
use kotakpasir.Manager.Tests.{node, disk}
use kotakpasir.Proxy.Tests.{latin}
use kotakpasir.Runtime.Counting.{counting}
use kotakpasir.Sandbox.{running, stopped}
use kotakpasir.Sse.{Chunk}
use kotakpasir.Sse.RoundTrip.{IsClean}
use kotakpasir.Store.{to_row, scan, get as row_get}
use kotakpasir.Api.{View}
use kotakpasir.Api.Handlers.{exec_options, chunk_of}
use kotakpasir.Api.Tests.{simple, guarded, noon}
use kotakpasir.Client.Wire.{wired}
use kotakpasir.Client.Tests.{
  plain, plain-IsWire, job_filled, one_exit, ok_chunk, echoed, ok_chunk-IsClean, payload-IsClean,
}
use kotakpasir.Cli.{raw, finish}
use kotakpasir.Cli.Differences.{ids}
use kotakpasir.Cli.Changes.{Knows, IsRound, watch_round_outcome}
use kotakpasir.Cli.Commands.{Terminal, exec_request, run_exec}
use kotakpasir.Cli.Execution.{run_exec_outcome, run_exec_stream_outcome}
use kotakpasir.Cli.Watch.{watch_round}

abbrev screen : Terminal
screen = record {
  flush = λ (rows : List (List String)). none;
  encode = λ (sb : View). none;
  write = λ (ws : List Chunk). none;
  body_end = none;
  ticks = λ (timeout : ℤ). 3;
  generate = λ (shell : String). none;
}

abbrev echo : List String
echo = "echo" ∷ "ok" ∷ []

echo-exec : (Logs.exec "job" (exec_options (exec_request echo) false) noon.now node).0 ≡ ok echoed
unfolding Logs.exec string_eq row_get to_row scan
echo-exec = refl

echo-stream : (Logs.exec "job" (exec_options (exec_request echo) true) noon.now node).0 ≡ ok echoed
unfolding Logs.exec string_eq row_get to_row scan
echo-stream = refl

echo-writes :
    map chunk_of (writes "job" (exec_options (exec_request echo) true) node) ≡ ok_chunk ∷ []
unfolding writes string_eq row_get to_row scan
echo-writes = refl

run_exec_outcome_example :
    finish
      (run_exec latin plain "secret"
        (wired simple {R = counting} {S = disk} guarded noon)
        screen
        one_exit
        false
        "job"
        echo
        node).0
    ≡ record {
      output =
          raw (record { to_stderr = false; bytes = [] })
          ∷ raw (record { to_stderr = true; bytes = [] })
          ∷ [];
      status = pos 0;
    }
run_exec_outcome_example =
    run_exec_outcome simple latin plain plain-IsWire guarded "secret" (inr refl) screen one_exit
      noon "job" echo node echoed job_filled refl refl echo-exec refl

run_exec_stream_outcome_example :
    finish
      (run_exec latin plain "secret"
        (wired simple {R = counting} {S = disk} guarded noon)
        screen
        one_exit
        true
        "job"
        echo
        node).0
    ≡ record {
      output = map raw (map chunk_of (writes "job" (exec_options (exec_request echo) true) node));
      status = pos 0;
    }
run_exec_stream_outcome_example =
    run_exec_stream_outcome simple latin plain plain-IsWire guarded "secret" (inr refl) screen
      one_exit noon "job" echo node echoed job_filled refl refl echo-stream (λ ws. refl)
      (subst (All (λ c. IsClean c.bytes)) (sym echo-writes) ok_chunk-IsClean) payload-IsClean refl

-- One sandbox stops, one is new, one is gone and one stays as it is.
abbrev at_first : List View
at_first =
    record { id = "a"; name = ""; image = "alpine"; state = running }
    ∷ record { id = "b"; name = ""; image = "alpine"; state = running }
    ∷ record { id = "c"; name = ""; image = "alpine"; state = running }
    ∷ []

abbrev later : List View
later =
    record { id = "a"; name = ""; image = "alpine"; state = stopped }
    ∷ record { id = "c"; name = ""; image = "alpine"; state = running }
    ∷ record { id = "d"; name = ""; image = "debian"; state = running }
    ∷ []

nothing-Knows : Knows [] []
unfolding lookup
nothing-Knows = record { distinct = tt; same = λ id. refl }

named_once : IsNodup (ids at_first) × IsNodup (ids later)
unfolding string_eq string_dec
named_once = ((refl, (refl, (refl, tt))), (refl, (refl, (refl, tt))))

runs : running ≢ ""
unfolding string_eq
runs = ne_of_== running "" refl

stops : stopped ≢ ""
unfolding string_eq
stops = ne_of_== stopped "" refl

at_first-IsRound : IsRound "10:00:00" [] at_first (watch_round "10:00:00" at_first [])
at_first-IsRound =
    watch_round_outcome "10:00:00" [] at_first [] nothing-Knows named_once.0
      (runs, (runs, (runs, tt)))

watch_round_outcome_example :
    IsRound "10:00:01" at_first later
      (watch_round "10:00:01" later (watch_round "10:00:00" at_first []).1)
watch_round_outcome_example =
    watch_round_outcome "10:00:01" at_first later (watch_round "10:00:00" at_first []).1
      at_first-IsRound.knows named_once.1 (stops, (runs, (runs, tt)))
