-- ===== src/Cli/Execution/Stopped.antt =====
-- `kp stop`, and `kp exec` behind it, against the HTTP API and the manager.
use kotakpasir.Base.{
  ◌≡◌, ◌≢◌, ◌⊎◌, inl, inr, sym, ap, subst, ◌∙◌, Bool, false, none, some, List, [], ◌∷◌, String,
  if◌then◌else◌, string_eq, string_dec, nat_eq, Error, ok, err, is_empty, arith, Result-cases,
}
use kotakpasir.Base.Int.{pos}
use kotakpasir.Base.Text.{Chars}
use kotakpasir.Runtime.{Runtime}
use kotakpasir.Sandbox.{Sandbox, Store}
use kotakpasir.Sandbox.Contract.{Contract}
use kotakpasir.Manager.{Manager}
use kotakpasir.Manager.Lifecycle
use kotakpasir.Manager.Logs
use kotakpasir.Manager.Logs.{writes}
use kotakpasir.Manager.Logs.Running.{IsRefused, exec-stop}
use kotakpasir.Sse.Parse.{PayloadJson}
use kotakpasir.Api.{Codec}
use kotakpasir.Api.Handlers.{exec_options, lookup_error, handle_exec, handle_stop}
use kotakpasir.Api.Server.{Settings, Moment, route, to_stop, handle}
use kotakpasir.Client.{
  Decoder, Failure, fine, failed, decoded, read_error_response, do_discard, sandbox_path,
}
use kotakpasir.Client.Methods.{no_exec, exec, stop}
use kotakpasir.Client.Wire.{IsWire, Arrives, wired, answered, call_allowed}
use kotakpasir.Client.Sandboxes.{is_filled, looked_up, dispatch_routed}
use kotakpasir.Cli.{failing, finish, print_err}
use kotakpasir.Cli.Commands.{Terminal, exec_request, run_exec, run_stop}
use kotakpasir.Cli.Execution.{exec_served}

route_stop :
    (b : Bool) (id : String)
    → id ≢ ""
    → route b "POST" (sandbox_path id ("stop" ∷ [])) ≡ some (to_stop id)
unfolding string_eq string_dec
route_stop b id h = ap (λ c. if c then none else some (to_stop id)) (is_filled id h)

module _ (K : Codec) {R : Runtime} {S : Store} (chars : Chars) (D : Decoder K.Body)
    (wire : IsWire K D) (s : Settings K.Body) (token : String)
    (same : (s.token ≡ "") ⊎ (s.token ≡ token)) (term : Terminal) (j : PayloadJson) where
  -- `Stop` behind the HTTP API.
  stop_served :
      (at : Moment) (id : String) (m : Manager R S)
      → id ≢ ""
      → stop chars D token (wired K s at) id m
        ≡ (looked_up K chars D (λ u. u) (Lifecycle.stop id m).0, (Lifecycle.stop id m).1)
  unfolding stop do_discard handle handle_stop
  stop_served at id m h =
      call_allowed K chars D s at token "POST" (sandbox_path id ("stop" ∷ [])) [] none
        (λ resp. fine tt) m same
      ∙ ap (answered K chars D (λ resp. fine tt))
          (dispatch_routed K s at _ m (to_stop id) (λ b. route_stop b id h))
      ∙ ground arith

  read_exec :
      (at : Moment) (id : String) (cmd : List String) (m : Manager R S) (e : Error)
      → Arrives K D (exec_request cmd)
      → is_empty cmd ≡ false
      → (Logs.exec id (exec_options (exec_request cmd) false) at.now m).0 ≡ err e
      → answered K chars D
          (decoded no_exec D.exec_of)
          (handle_exec K id (D.exec_body (exec_request cmd)) at.now m)
        ≡ (
          failed (read_error_response chars D (lookup_error K e)),
          (Logs.exec id (exec_options (exec_request cmd) false) at.now m).1,
        )
  unfolding handle_exec
  read_exec at id cmd m e law some_cmd h = ground (arith, law, some_cmd, h)

  stop_done :
      (at : Moment) (id : String) (m : Manager R S)
      → id ≢ ""
      → (finish (run_stop chars D token (wired K s at) term id m).0).status ≡ pos 0
      → ((Lifecycle.stop id m).0 ≡ ok tt)
        × ((run_stop chars D token (wired K s at) term id m).1 ≡ (Lifecycle.stop id m).1)
  unfolding run_stop finish
  stop_done at id m filled h = elim (Result-cases (Lifecycle.stop id m).0) [
    | inl (u, e) ↦ (e, ground (arith, e, stop_served at id m filled))
    | inr (x, e) ↦ absurd (ground (arith, h, e, stop_served at id m filled))
  ]

  stop_found :
      (C : Contract S) (id : String) (m : Manager R S)
      → C.IsGood m.db
      → (Lifecycle.stop id m).0 ≡ ok tt
      → (sb : Sandbox) × ((S.get id m.db).0 ≡ ok sb) × (sb.id ≡ id)
  unfolding Lifecycle.stop
  stop_found C id m good h = elim (C.get_law id id m.db good).2 [
    | inl (sb, e, held) ↦ (sb, e, C.contents_id m.db id sb held)
    | inr (inl (e, empty)) ↦ absurd (ground (arith, h, e))
    | inr (inr (x, e)) ↦ absurd (ground (arith, h, e))
  ]

  exec_failed :
      (at : Moment) (id : String) (cmd : List String) (m : Manager R S) (e : Error)
      → id ≢ ""
      → Arrives K D (exec_request cmd)
      → is_empty cmd ≡ false
      → (Logs.exec id (exec_options (exec_request cmd) false) at.now m).0 ≡ err e
      → let (ran, m') = run_exec chars D token (wired K s at) term j false id cmd m in
        (finish ran ≡ record {
          output = print_err (failing (read_error_response chars D (lookup_error K e))) ∷ [];
          status = pos 1;
        })
        × (m' ≡ (Logs.exec id (exec_options (exec_request cmd) false) at.now m).1)
  unfolding run_exec exec finish
  exec_failed at id cmd m e filled law some_cmd h =
      let served =
        exec_served K chars D wire s token same term j at id cmd m filled
        ∙ read_exec at id cmd m e law some_cmd h in
      (ground (arith, served), ground (arith, served))

  -- After a `kp stop` that ends with status 0, `kp exec` on the same sandbox prints nothing but an
  -- error, ends with status 1, and asks nothing of the container.
  pub run_exec-run_stop :
      (C : Contract S) (at later : Moment) (id : String) (cmd : List String) (m : Manager R S)
      → C.IsGood m.db
      → id ≢ ""
      → Arrives K D (exec_request cmd)
      → is_empty cmd ≡ false
      → (finish (run_stop chars D token (wired K s at) term id m).0).status ≡ pos 0
      → let n = (run_stop chars D token (wired K s at) term id m).1 in
        let (ran, n') = run_exec chars D token (wired K s later) term j false id cmd n in
        ((e : Failure) × (finish ran
            ≡ record { output = print_err (failing e) ∷ []; status = pos 1 }))
        × (n'.world ≡ n.world)
  run_exec-run_stop C at later id cmd m good filled law some_cmd h =
      let (stopped, after) = stop_done at id m filled h in
      let (sb, got, same_id) = stop_found C id m good stopped in
      let opts = exec_options (exec_request cmd) false in
      let (failed_with, world, _) =
        subst
          (λ i.
            IsRefused C (Lifecycle.stop id m).1
              (Logs.exec i opts later.now (Lifecycle.stop id m).1))
          same_id (exec-stop C id opts later.now m sb good got stopped) in
      let (e, q) = failed_with in
      let (ended, left) =
        exec_failed later id cmd (Lifecycle.stop id m).1 e filled law some_cmd q in
      subst
        (λ (n : Manager R S).
          let (ran, n') = run_exec chars D token (wired K s later) term j false id cmd n in
          ((e : Failure) × (finish ran
              ≡ record { output = print_err (failing e) ∷ []; status = pos 1 }))
          × (n'.world ≡ n.world))
        (sym after) ((_, ended), ap (λ (n : Manager R S). n.world) left ∙ world)
