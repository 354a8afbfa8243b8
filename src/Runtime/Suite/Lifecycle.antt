-- ===== src/Runtime/Suite/Lifecycle.antt =====
-- What the tests of the suite ask of a backend.
use kotakpasir.Base.{
  ℕ, ◌≡◌, ◌≢◌, ◌↔◌, inl, inr, true, false, List, String, ok, arith, Result-cases, string_eq,
}
use kotakpasir.Base.Int.{pos, is_pos, int_eq}
use kotakpasir.Base.Text.{Chars, contains_text}
use kotakpasir.Runtime.{Handle, ExecResult, Status}
use kotakpasir.Runtime.Suite.{Backend, t_run, test_lifecycle, test_exec_streams, basic_spec, sh}

module _ (B : Backend) (chars : Chars) (text : List ℕ → String) where
  -- A container can be made and has an id; in it `echo hi` ends with 0, after some time, and says so; it
  -- can be stopped, does not run then, and can be removed.
  abbrev pub IsLived : B.State → Type 0
  IsLived world =
      (h : Handle) × (res : ExecResult) × (st : Status) × let made = B.create basic_spec world in
        let ran = B.exec h.id (sh "echo hi") made.1 in
        let stopped = B.stop h.id ran.1 in
        let told = B.status h.id stopped.1 in
        (made.0 ≡ ok h)
        × (h.id ≢ "")
        × (ran.0 ≡ ok res)
        × (res.exit_code ≡ pos 0)
        × (text res.stdout ≡ "hi\n")
        × (is_pos res.duration ≡ true)
        × (stopped.0 ≡ ok tt)
        × (told.0 ≡ ok st)
        × (st.state ≢ "running")
        × ((B.remove false h.id told.1).0 ≡ ok tt)

  passed-of_IsLived :
      (world : B.State)
      → IsLived world
      → (t_run B (test_lifecycle B chars text) world).passed ≡ true
  unfolding t_run test_lifecycle
  passed-of_IsLived world (h, res, st, rest) = ground (arith, rest)

  IsLived-of_passed :
      (world : B.State)
      → (t_run B (test_lifecycle B chars text) world).passed ≡ true
      → IsLived world
  unfolding t_run test_lifecycle
  IsLived-of_passed world p =
      let made = B.create basic_spec world in
      elim (Result-cases made.0) [
        | inr (e, q) ↦ absurd (ground (arith, p, q))
        | inl (h, q) ↦
            let ran = B.exec h.id (sh "echo hi") made.1 in
            elim (Result-cases ran.0) [
              | inr (e, q') ↦ absurd (ground (arith, p, q, q'))
              | inl (res, q') ↦
                  let told = B.status h.id (B.stop h.id ran.1).1 in
                  elim (Result-cases told.0) [
                    | inr (e, q'') ↦ absurd (ground (arith, p, q, q', q''))
                    | inl (st, q'') ↦ (h, res, st, ground (arith, p, q, q', q''))
                  ]
            ]
      ]

  -- A backend passes the test of the life cycle exactly when a container can be made and has an id; in
  -- it `echo hi` ends with 0, after some time, and says so; and it can be stopped, does not run then,
  -- and can be removed.
  pub test_lifecycle_iff :
      (world : B.State)
      → ((t_run B (test_lifecycle B chars text) world).passed ≡ true) ↔ IsLived world
  test_lifecycle_iff world = (IsLived-of_passed world, passed-of_IsLived world)

  -- A command's exit code and its two streams come back, each on its own.
  abbrev pub IsApart : B.State → Type 0
  IsApart world =
      (h : Handle) × (res : ExecResult) × let made = B.create basic_spec world in
        (made.0 ≡ ok h)
        × ((B.exec h.id (sh "echo out; echo err >&2; exit 7") made.1).0 ≡ ok res)
        × (res.exit_code ≡ pos 7)
        × (contains_text (text res.stdout) "out" ≡ true)
        × (contains_text (text res.stderr) "err" ≡ true)
        × (contains_text (text res.stdout) "err" ≡ false)

  IsApart-of_passed :
      (world : B.State)
      → (t_run B (test_exec_streams B chars text) world).passed ≡ true
      → IsApart world
  unfolding t_run test_exec_streams
  IsApart-of_passed world p =
      let made = B.create basic_spec world in
      elim (Result-cases made.0) [
        | inr (e, q) ↦ absurd (ground (arith, p, q))
        | inl (h, q) ↦
            elim (Result-cases (B.exec h.id (sh "echo out; echo err >&2; exit 7") made.1).0) [
              | inr (e, q') ↦ absurd (ground (arith, p, q, q'))
              | inl (res, q') ↦ (h, res, ground (arith, p, q, q'))
            ]
      ]

  passed-of_IsApart :
      (world : B.State)
      → IsApart world
      → (t_run B (test_exec_streams B chars text) world).passed ≡ true
  unfolding t_run test_exec_streams
  passed-of_IsApart world (h, res, rest) = ground (arith, rest)

  -- A backend passes the test of the streams exactly when a command's exit code and its two streams come
  -- back, each on its own.
  pub test_exec_streams_iff :
      (world : B.State)
      → ((t_run B (test_exec_streams B chars text) world).passed ≡ true) ↔ IsApart world
  test_exec_streams_iff world = (IsApart-of_passed world, passed-of_IsApart world)
