-- ===== src/Runtime/Suite/Tests.antt =====
-- The suite on a backend that keeps a list of containers.
use kotakpasir.Base.{
  ◌≡◌, refl, Bool, true, false, List, [], ◌∷◌, String, if◌then◌else◌, contains, string_eq,
  string_dec, message, ok, err, subst,
}
use kotakpasir.Base.Int.{pos, int_eq}
use kotakpasir.Base.Text.{Chars}
use Prim.Native.Char.{Char}
use mathlib.Core.Option.{none}
use kotakpasir.Runtime.{Spec, Handle}
use kotakpasir.Runtime.Suite.{Backend, created, removed, closed, t_run}
use kotakpasir.Runtime.Suite.Removal.{Obeys, streams, body_of, late_test_leaks}

abbrev ascii : Chars
ascii = record { is_space = λ (c : Char). false; lower = λ (c : Char). c }

abbrev handle : Handle
handle = record { id = "c"; name = "c" }

abbrev listed : Backend
listed = record {
  State = List String;
  create = λ (spec : Spec) (s : List String). (ok handle, "c" ∷ s);
  exec = λ (id : String) (cmd : List String) (s : List String). (
    ok (record { exit_code = pos 0; stdout = b'h' ∷ b'i' ∷ []; stderr = []; duration = pos 1 }),
    s,
  );
  stop = λ (id : String) (s : List String). (ok tt, s);
  status =
      λ (id : String) (s : List String). (ok (record { state = "exited"; exit_code = none }), s);
  remove = λ (is_done : Bool) (id : String) (s : List String).
      if is_done then (err (message "context canceled" []), s) else (ok tt, []);
  close = λ (s : List String). s;
}

the_handle : (h : Handle) → ok handle ≡ ok h → handle ≡ h
the_handle h e = cc e

listed-Obeys : Obeys listed
unfolding string_eq string_dec
listed-Obeys = record {
  alive = λ (id : String) (s : List String). contains s id;
  create_law =
      λ spec h s e. subst (λ (x : Handle). contains ("c" ∷ s) x.id ≡ true) (the_handle h e) refl;
  exec_law = λ other id cmd s. refl;
  remove_law = λ other id s. refl;
  close_law = λ other s. refl;
}

late_test_leaks_example :
    let end = (t_run listed (body_of listed ascii (λ bytes. "hi\n") streams) []).end in
    (end.calls ≡ closed ∷ removed true "c" ∷ created "c" ∷ [])
    × (listed-Obeys.alive "c" end.world ≡ true)
late_test_leaks_example =
    late_test_leaks listed-Obeys ascii (λ bytes. "hi\n") streams handle [] refl
