-- ===== src/Runtime/Suite.antt =====
-- internal/runtime/runtimetest/runtimetest.go: the conformance suite that a backend has to pass.
-- A test is a method on the state of a `testing.T`: an error that it ends with is a call of `Fatalf`
-- or `Skipf`. `text` is the text of a command's output.
pub mod Removal
pub mod Lifecycle
mod Tests
use kotakpasir.Base.{
  ℕ, zero, suc, ◌%◌, Bool, true, false, not, ◌&&◌, ◌||◌, Option, none, some, List, [], ◌∷◌, String,
  ◌<>◌, if◌then◌else◌, ◌==◌, string_eq, nat_eq, is_empty, message, Error, Result, ok, err,
}
use kotakpasir.Base.Int.{ℤ, pos, is_pos, int_eq}
use kotakpasir.Base.State.{Method, return, fail, modify, ◌>>=◌, ◌>>◌}
use kotakpasir.Base.Text.{Chars, trim_space, contains_text}
use kotakpasir.Runtime.{Spec, Egress, Handle, ExecResult, Status}

-- The methods of `rt.Runtime` that the suite calls. `remove` is told whether the context of the call is
-- done; the contexts of the other calls are those of a running test.
pub record Backend : Type 1 where
  pub State : Type 0
  pub create : Spec → State → Result Handle × State
  pub exec : String → List String → State → Result ExecResult × State
  pub stop : String → State → Result (Unit {0}) × State
  pub status : String → State → Result Status × State
  pub remove : Bool → String → State → Result (Unit {0}) × State
  pub close : State → State

-- The functions given to `t.Cleanup`.
pub data Cleanup : Type 0 where
  close_runtime : Cleanup
  remove_container : String → Cleanup

-- The calls of a backend that make or remove something.
pub data Call : Type 0 where
  created : String → Call
  removed : Bool → String → Call
  closed : Call

-- A `testing.T` over a backend: the messages of `Errorf`, whether `Skipf` was called, the clean-up
-- functions and the calls, each with the latest first.
pub record Testing (B : Backend) : Type 0 where
  pub world : B.State
  pub errors : List String
  pub skipped : Bool
  pub cleanups : List Cleanup
  pub calls : List Call

-- How a test went, and the state behind its clean-up.
pub record Report (B : Backend) : Type 0 where
  pub passed : Bool
  pub end : Testing B

-- `TestImage`
abbrev pub test_image : String
test_image = "alpine:latest"

abbrev pub basic_spec : Spec
basic_spec = record {
  name = "";
  image = test_image;
  cmd = [];
  env = [];
  cpus = pos 1000000000;
  memory_mb = pos 256;
  pids_limit = pos 256;
  user = "1000:1000";
  read_only = true;
  network_mode = "none";
  runtime_name = "";
  egress = record { mode = ""; hosts = [] };
  labels = [];
  ttl = pos 0;
}

abbrev pub sandbox_id_spec : String → Spec
sandbox_id_spec id = record basic_spec { name = id; labels = ("kotakpasir.sandbox-id", id) ∷ [] }

digit_at : ℕ → String → String
digit_at n String.[] = String.[]
digit_at zero (String.◌∷◌ c s) = String.◌∷◌ c String.[]
digit_at (suc n) (String.◌∷◌ c s) = digit_at n s

-- `randHex`, by the times that its rounds read.
unfoldable pub rand_hex : List ℕ → String
unfolding digit_at
rand_hex [] = ""
rand_hex (now ∷ times) = digit_at (now % 16) "0123456789abcdef" <> rand_hex times

abbrev pub sh : String → List String
sh script = "sh" ∷ "-c" ∷ script ∷ []

module _ (B : Backend) where
  -- `t.Cleanup`
  abbrev pub cleanup : Cleanup → Method (Testing B) (Unit {0})
  cleanup c = modify (λ t. record t { cleanups = c ∷ t.cleanups })

  -- `if !cond { t.Errorf(...) }`
  abbrev pub expect : Bool → String → Method (Testing B) (Unit {0})
  expect cond told = modify (λ t. record t { errors = if cond then t.errors else told ∷ t.errors })

  -- `if err != nil { t.Fatalf(...) }`
  abbrev pub or_fatal {ℓ} : {A : Type ℓ} → String → Result A × B.State → Method (Testing B) A
  or_fatal told (r, world) t =
      (elim r [ ok a ↦ ok a | err e ↦ err (message told []) ], record t { world = world })

  -- `r.Create` and the removal that is registered behind it.
  abbrev pub make : Spec → Method (Testing B) Handle
  make spec t =
      let (r, world) = B.create spec t.world in
      elim r [
        | err e ↦ (err (message "Create: %v" []), record t { world = world })
        | ok h ↦ (
          ok h,
          record t {
            world = world;
            cleanups = remove_container h.id ∷ t.cleanups;
            calls = created h.id ∷ t.calls;
          },
        )
      ]

  abbrev pub run : String → String → List String → Method (Testing B) ExecResult
  run told id cmd t = or_fatal told (B.exec id cmd t.world) t

  -- `t.Skipf`
  abbrev pub or_skip {ℓ} : {A : Type ℓ} → Method (Testing B) A → Method (Testing B) A
  or_skip m t =
      let (r, t') = m t in (r, elim r [ ok a ↦ t' | err e ↦ record t' { skipped = true } ])

  module _ (chars : Chars) (text : List ℕ → String) where
    -- `testLifecycle`
    unfoldable pub test_lifecycle : Method (Testing B) (Unit {0})
    test_lifecycle = do
      cleanup close_runtime
      h ← make basic_spec
      if h.id == "" then fail (message "Create returned empty ID" []) else return tt
      res ← run "Exec: %v" h.id (sh "echo hi")
      expect (res.exit_code == pos 0) "ExitCode=%d, want 0"
      expect (text res.stdout == "hi\n") "Stdout=%q, want %q"
      expect (is_pos res.duration) "Duration=%v, want >0"
      λ t. or_fatal "Stop: %v" (B.stop h.id t.world) t
      st ← λ t. or_fatal "Status after Stop: %v" (B.status h.id t.world) t
      expect (not (st.state == "running")) "State after Stop = %q, want non-running"
      λ t.
          or_fatal "Remove: %v" (B.remove false h.id t.world)
            (record t { calls = removed false h.id ∷ t.calls })

    -- `testExecStreams`
    unfoldable pub test_exec_streams : Method (Testing B) (Unit {0})
    test_exec_streams = do
      cleanup close_runtime
      h ← make basic_spec
      res ← run "Exec: %v" h.id (sh "echo out; echo err >&2; exit 7")
      expect (res.exit_code == pos 7) "ExitCode=%d, want 7"
      expect (contains_text (text res.stdout) "out") "Stdout=%q, want to contain 'out'"
      expect (contains_text (text res.stderr) "err") "Stderr=%q, want to contain 'err'"
      expect (not (contains_text (text res.stdout) "err")) "Stderr leaked into Stdout: %q"

    -- `testHardening`
    unfoldable pub test_hardening : Method (Testing B) (Unit {0})
    test_hardening = do
      cleanup close_runtime
      h ← make basic_spec
      ro ← run "Exec ro: %v" h.id (sh "touch /opt/x 2>&1; echo done")
      expect
          (contains_text (text ro.stdout) "Read-only"
            || contains_text (text ro.stdout) "Permission denied")
          "Read-only rootfs not enforced: stdout=%q"
      tmp ← run "Exec tmpfs: %v" h.id (sh "touch /tmp/y && echo tmp-ok")
      expect (contains_text (text tmp.stdout) "tmp-ok") "/tmp not writable: stdout=%q"
      user ← run "Exec id -u: %v" h.id ("id" ∷ "-u" ∷ [])
      expect (trim_space chars (text user.stdout) == "1000") "UID=%q, want 1000"
      net ← run "Exec net: %v" h.id (sh "wget -qO- --timeout=2 http://1.1.1.1 2>&1; echo done")
      expect
          (contains_text (text net.stdout) "unreachable"
            || contains_text (text net.stdout) "bad address"
            || contains_text (text net.stdout) "timed out")
          "network=none not enforced: stdout=%q"

    abbrev pub connect_script : String → String
    connect_script target =
        "printf 'CONNECT "
        <> (target
            <> (" HTTP/1.1\\r\\nHost: "
                <> (target <> "\\r\\n\\r\\n' | nc -w 3 proxy 8080 | head -1")))

    -- `testEgress`, with the times that `randHex` reads.
    unfoldable pub test_egress : List ℕ → Method (Testing B) (Unit {0})
    test_egress times = do
      cleanup close_runtime
      let id = "egress-test-" <> rand_hex times
      let egress : Egress = record { mode = "allowlist"; hosts = "example.com" ∷ [] }
      h ← or_skip (make (record (sandbox_id_spec id) { egress = egress }))
      near ←
          run "Exec proxy-reach: %v" h.id
            (sh "nc -w 2 proxy 8080 </dev/null >/dev/null 2>&1; echo exit=$?")
      expect (contains_text (text near.stdout) "exit=0") "sandbox cannot reach proxy: stdout=%q"
      far ←
          run "Exec direct-egress: %v" h.id
            (sh "nc -w 2 1.1.1.1 443 </dev/null >/dev/null 2>&1; echo exit=$?")
      expect (not (contains_text (text far.stdout) "exit=0"))
          "sandbox reached internet directly without proxy: stdout=%q"
      listed ← run "Exec connect-allowed: %v" h.id (sh (connect_script "example.com:443"))
      expect (contains_text (text listed.stdout) "200")
          "proxy did not allow allowlisted host (want 200): stdout=%q"
      other ← run "Exec connect-denied: %v" h.id (sh (connect_script "1.1.1.1:443"))
      expect (not (contains_text (text other.stdout) "200"))
          "proxy allowed non-allowlisted host: stdout=%q"

  -- The clean-up functions, the latest first. The context of the test is done by then.
  unfoldable pub clean_up : List Cleanup → Testing B → Testing B
  clean_up [] t = t
  clean_up (close_runtime ∷ cs) t =
      clean_up cs (record t { world = B.close t.world; calls = closed ∷ t.calls })
  clean_up (remove_container id ∷ cs) t =
      clean_up cs
        (record t { world = (B.remove true id t.world).1; calls = removed true id ∷ t.calls })

  -- `t.Run`; a skipped test does not fail.
  unfoldable pub t_run : Method (Testing B) (Unit {0}) → B.State → Report B
  unfolding clean_up
  t_run test world =
      let (r, t) =
        test (record { world = world; errors = []; skipped = false; cleanups = []; calls = [] }) in
      record {
        passed = t.skipped || ((elim r [ ok _ ↦ true | err _ ↦ false ]) && is_empty t.errors);
        end = clean_up t.cleanups t;
      }

  -- `Suite`: the reports of its tests; `make_runtime` makes a backend for each.
  unfoldable pub suite :
      Chars → (List ℕ → String) → (B.State → B.State) → List ℕ → B.State → List (Report B)
  unfolding t_run
  suite chars text make_runtime times world =
      let lifecycle = t_run (test_lifecycle chars text) (make_runtime world) in
      let streams = t_run (test_exec_streams chars text) (make_runtime lifecycle.end.world) in
      let hardening = t_run (test_hardening chars text) (make_runtime streams.end.world) in
      let egress = t_run (test_egress chars text times) (make_runtime hardening.end.world) in
      lifecycle ∷ streams ∷ hardening ∷ egress ∷ []
