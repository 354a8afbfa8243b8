-- ===== src/Runtime/Counting.antt =====
-- A runtime for the tests: its state is the number of containers created, and every call succeeds.
use kotakpasir.Base.{ℕ, zero, suc, false, none, [], ◌∷◌, String, ◌<>◌, ok}
use kotakpasir.Base.Int.{pos}
use kotakpasir.Runtime.{Runtime, Spec, ExecSpec}

-- A name for each number.
abbrev pub name_of : ℕ → String
name_of zero = "c"
name_of (suc n) = "c" <> name_of n

abbrev pub counting : Runtime
counting = record {
  State = ℕ;
  create = λ (spec : Spec) (n : ℕ). (ok (record { id = name_of n; name = name_of n }), suc n);
  exec = λ (id : String) (spec : ExecSpec) (n : ℕ). (
    ok (record { exit_code = pos 0; stdout = []; stderr = []; duration = pos 1 }),
    record { to_stderr = false; bytes = 111 ∷ 107 ∷ 10 ∷ []; at = 1 } ∷ [],
    n,
  );
  stop = λ (id : String) (n : ℕ). (ok tt, n);
  remove = λ (id : String) (n : ℕ). (ok tt, n);
  ping = none;
  clean_pool_orphans = none;
  ensure_image = none;
  proxy_addr = none;
}
