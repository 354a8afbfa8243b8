-- ===== src/Client/Wait.antt =====
-- pkg/kotakpasir/wait.go: `WaitFor`, over `Get` of one sandbox as a parameter.
-- The context is the number of ticks that come before it is done. A context that is never done is not
-- covered: with it, the program may wait for ever.
use kotakpasir.Base.{
  ℕ, zero, suc, ◌≤◌, ◌≡◌, refl, ◌⊎◌, inl, inr, Bool, true, false, ◌||◌, Option, none, some, String,
  if◌then◌else◌, ◌==◌, string_eq, arith, Bool-cases, ◌≢◌,
}
use kotakpasir.Base.Int.{ℤ, pos, is_pos}
use kotakpasir.Api.{View}
use kotakpasir.Client.{
  Answer, fine, failed, Failure, broken, refused, not_found, unauthorized, policy_denied,
  bad_request,
}

-- What `WaitFor` ends with: the sandbox in the target state; the sandbox in another state that it
-- cannot leave; the error of `Get`, wrapped where it is `ErrNotFound`; or the context's error.
pub data Waited : Type 0 where
  reached : View → Waited
  ended : View → Waited
  absent : Failure → Waited
  lost : Failure → Waited
  cancelled : Waited

-- `isTerminalState`
abbrev pub is_terminal_state : String → Bool
is_terminal_state s = s == "removed" || s == "error"

-- `errors.Is(err, ErrNotFound)`
abbrev pub is_not_found : Failure → Bool
is_not_found (refused status told (some not_found)) = true
is_not_found _ = false

-- The interval of the ticker, in nanoseconds.
abbrev pub interval_of : ℤ → ℤ
interval_of interval = if is_pos interval then interval else pos 200000000

-- The tests on what `Get` returned; `none` waits for the next tick.
unfoldable pub settle : String → Answer View → Option Waited
settle target (failed e) = some (if is_not_found e then absent e else lost e)
settle target (fine sb) =
    if sb.state == target
    then some (reached sb)
    else if is_terminal_state sb.state
    then some (ended sb)
    else none

-- An answer that decides nothing: the sandbox is in another state than the target, and may leave it.
abbrev pub IsOpen : String → Answer View → Type 0
IsOpen target a =
    (sb : View) × (a ≡ fine sb)
    × (sb.state ≢ target)
    × (sb.state ≢ "removed")
    × (sb.state ≢ "error")

-- What an answer leads to, where it decides.
abbrev pub Decides : String → Answer View → Waited → Type 0
Decides target a (reached sb) = (a ≡ fine sb) × (sb.state ≡ target)
Decides target a (ended sb) =
    (a ≡ fine sb) × (sb.state ≢ target) × ((sb.state ≡ "removed") ⊎ (sb.state ≡ "error"))
Decides target a (absent e) =
    (a ≡ failed e) × ((status : ℕ) × (told : String) × (e ≡ refused status told (some not_found)))
Decides target a (lost e) =
    (a ≡ failed e) × ((status : ℕ) (told : String) → e ≢ refused status told (some not_found))
Decides target a cancelled = ¬ (a ≡ a)

settle_failed :
    (target : String) (e : Failure)
    → (w : Waited) × (settle target (failed e) ≡ some w) × Decides target (failed e) w
unfolding settle
settle_failed target (refused status told (some not_found)) =
    (absent (refused status told (some not_found)), refl, (refl, (status, told, refl)))
settle_failed target (refused status told (some unauthorized)) =
    (lost (refused status told (some unauthorized)), refl, (refl, λ s t h. cc h))
settle_failed target (refused status told (some policy_denied)) =
    (lost (refused status told (some policy_denied)), refl, (refl, λ s t h. cc h))
settle_failed target (refused status told (some bad_request)) =
    (lost (refused status told (some bad_request)), refl, (refl, λ s t h. cc h))
settle_failed target (refused status told none) =
    (lost (refused status told none), refl, (refl, λ s t h. cc h))
settle_failed target (broken x) = (lost (broken x), refl, (refl, λ s t h. cc h))

settle_outcome :
    (target : String) (a : Answer View)
    → ((w : Waited) × (settle target a ≡ some w) × Decides target a w)
      ⊎ ((settle target a ≡ none) × IsOpen target a)
unfolding settle
settle_outcome target (failed e) = inl (settle_failed target e)
settle_outcome target (fine sb) = elim (Bool-cases (sb.state == target)) [
  | inl on ↦ inl (reached sb, ground (arith, on), (refl, ground (arith, on)))
  | inr off ↦ elim (Bool-cases (is_terminal_state sb.state)) [
    | inl over ↦
        inl (ended sb, ground (arith, off, over), (refl, ground (arith, off), ground (arith, over)))
    | inr more ↦ inr (
      ground (arith, off, more),
      (sb, refl, ground (arith, off), ground (arith, more), ground (arith, more)),
    )
  ]
]

module _ {ℓ} {St : Type ℓ} (poll : St → Answer View × St) (target : String) where
  -- `WaitFor`
  unfoldable pub wait_for : ℕ → St → Waited × St
  wait_for zero s =
      let (a, s') = poll s in elim (settle target a) [ some w ↦ (w, s') | none ↦ (cancelled, s') ]
  wait_for (suc n) s =
      let (a, s') = poll s in
      let rest = wait_for n s' in elim (settle target a) [ some w ↦ (w, s') | none ↦ rest ]

  -- So many calls of `Get`, one after the other, decide nothing.
  pub data Undecided : ℕ → St → St → Type ℓ where
    at_once : (s : St) → Undecided zero s s
    later :
        (k : ℕ) (s t : St)
        → IsOpen target (poll s).0
        → Undecided k (poll s).1 t
        → Undecided (suc k) s t

  -- `WaitFor` with a context that is done after so many ticks: it returns what the first deciding call of
  -- `Get` leads to, where there is one among the first and those at the ticks, and else the context's
  -- error after the last of them. A call decides by an error, which is `ErrNotFound` or another; by the
  -- target state; or by another state, `removed` or `error`, that the sandbox cannot leave.
  pub wait_for_outcome :
      (n : ℕ) (s : St)
      → ((k : ℕ) × (t : St) × (w : Waited) × (k ≤ n)
          × Undecided k s t
          × Decides target (poll t).0 w
          × (wait_for n s ≡ (w, (poll t).1)))
        ⊎ ((t : St) × Undecided (suc n) s t × (wait_for n s ≡ (cancelled, t)))
  unfolding wait_for
  wait_for_outcome zero s = elim (settle_outcome target (poll s).0) [
    | inl (w, e, d) ↦ inl (0, s, w, omega arith, at_once s, d, ground (arith, e))
    | inr (e, o) ↦
        inr ((poll s).1, later zero s (poll s).1 o (at_once (poll s).1), ground (arith, e))
  ]
  wait_for_outcome (suc n) s = elim (settle_outcome target (poll s).0) [
    | inl (w, e, d) ↦ inl (0, s, w, omega arith, at_once s, d, ground (arith, e))
    | inr (e, o) ↦ elim (wait_for_outcome n (poll s).1) [
      | inl (k, t, w, le, more, h, same) ↦
          inl (suc k, t, w, omega (arith, le), later k s t o more, h, ground (arith, e, same))
      | inr (t, more, same) ↦ inr (t, later (suc n) s t o more, ground (arith, e, same))
    ]
  ]
