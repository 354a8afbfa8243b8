-- ===== src/Runtime/Suite/Removal.antt =====
-- What the tests of the suite leave behind.
use kotakpasir.Base.{ℕ, ◌≡◌, true, List, [], ◌∷◌, ◌<>◌, Bool, String, ok, arith, string_eq}
use kotakpasir.Base.State.{Method}
use kotakpasir.Base.Text.{Chars}
use kotakpasir.Runtime.{Spec, Handle}
use kotakpasir.Runtime.Suite.{
  Backend, Testing, created, removed, closed, t_run, test_exec_streams, test_hardening, test_egress,
  basic_spec, sandbox_id_spec, rand_hex,
}

-- The tests that remove their container in the clean-up only.
pub data Late : Type 0 where
  streams : Late
  hardening : Late
  egress : List ℕ → Late

abbrev egress_spec : List ℕ → Spec
egress_spec times = record (sandbox_id_spec ("egress-test-" <> rand_hex times)) {
  egress = record { mode = "allowlist"; hosts = "example.com" ∷ [] };
}

abbrev pub spec_of : Late → Spec
spec_of streams = basic_spec
spec_of hardening = basic_spec
spec_of (egress times) = egress_spec times

abbrev pub body_of :
    (B : Backend) → Chars → (List ℕ → String) → Late → Method (Testing B) (Unit {0})
body_of B chars text streams = test_exec_streams B chars text
body_of B chars text hardening = test_hardening B chars text
body_of B chars text (egress times) = test_egress B chars text times

-- A backend as the Docker client is one: `alive` tells the containers, and a removal whose context is
-- done does nothing.
pub record Obeys (B : Backend) : Type 0 where
  pub alive : String → B.State → Bool
  pub create_law :
      (spec : Spec) (h : Handle) (s : B.State)
      → (B.create spec s).0 ≡ ok h
      → alive h.id (B.create spec s).1 ≡ true
  pub exec_law :
      (other id : String) (cmd : List String) (s : B.State)
      → alive other (B.exec id cmd s).1 ≡ alive other s
  pub remove_law :
      (other id : String) (s : B.State) → alive other (B.remove true id s).1 ≡ alive other s
  pub close_law : (other : String) (s : B.State) → alive other (B.close s) ≡ alive other s

module _ {B : Backend} (O : Obeys B) (chars : Chars) (text : List ℕ → String) where
  -- A test of the streams, the hardening or the egress that got a container asks to remove it once, in
  -- its clean-up, where the context of the call is done; on a backend that does nothing then, the
  -- container is there when the test is over.
  pub late_test_leaks :
      (test : Late) (h : Handle) (world : B.State)
      → (B.create (spec_of test) world).0 ≡ ok h
      → let end = (t_run B (body_of B chars text test) world).end in
        (end.calls ≡ closed ∷ removed true h.id ∷ created h.id ∷ [])
        × (O.alive h.id end.world ≡ true)
  unfolding t_run test_exec_streams test_hardening test_egress
  late_test_leaks streams h world q =
      (ground (arith, q), grind (arith, q, O.create_law, O.exec_law, O.remove_law, O.close_law))
  late_test_leaks hardening h world q =
      (ground (arith, q), grind (arith, q, O.create_law, O.exec_law, O.remove_law, O.close_law))
  late_test_leaks (egress times) h world q =
      (ground (arith, q), grind (arith, q, O.create_law, O.exec_law, O.remove_law, O.close_law))
