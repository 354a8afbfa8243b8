-- ===== src/Api/Creation.antt =====
-- What a request to create a sandbox comes to, where the policy refuses it.
use kotakpasir.Base.{ℕ, ◌≡◌, inl, inr, String, string_eq, nat_eq, ok, arith}
use kotakpasir.Policy.Resolve.Admission.{IsAdmitted, resolve_total}
use kotakpasir.Runtime.{Runtime}
use kotakpasir.Sandbox.{Store}
use kotakpasir.Manager.{Manager}
use kotakpasir.Manager.Create.{create, request_of}
use kotakpasir.Api.{Codec, CreateRequest}
use kotakpasir.Api.Handlers.{options_of, handle_create}

module _ (K : Codec) {R : Runtime} {S : Store} where
  -- A creation that the policy does not admit: the answer has the status 400, and the store, the
  -- runtime, the pools and the log buffers are as they were.
  pub handle_create_refused :
      (body : K.Body) (req : CreateRequest) (id : String) (now : ℕ) (m : Manager R S)
      → K.create_of body ≡ ok req
      → ¬ IsAdmitted m.policy (request_of (options_of req))
      → let (answer, n) = handle_create K body id now m in
        (answer.status ≡ 400)
        × (n.db ≡ m.db)
        × (n.world ≡ m.world)
        × (n.pools ≡ m.pools)
        × (n.logs ≡ m.logs)
  unfolding handle_create create
  handle_create_refused body req id now m read out =
      elim (resolve_total m.policy (request_of (options_of req))) [
        | inl (admitted, _) ↦ elim (out admitted) [ ]
        | inr (_, (e, h, marked)) ↦ ground (arith, read, h, marked)
      ]
