-- ===== src/Mcp/Agreement.antt =====
-- The tools of the MCP server against the handlers of the HTTP API.
use kotakpasir.Base.{
  ℕ, ◌≡◌, ◌≢◌, ◌⊎◌, inl, inr, false, some, ◌<>◌, ◌&&◌, String, ◌==◌, string_eq, nat_eq, Error, ok,
  err, arith, Result-cases,
}
use kotakpasir.Runtime.{Runtime}
use kotakpasir.Sandbox.{Store}
use kotakpasir.Manager.{Manager}
use kotakpasir.Manager.Create
use kotakpasir.Api.{Codec, CreateRequest, View}
use kotakpasir.Api.Handlers.{handle_create, reply}
use kotakpasir.Mcp.{CreateInput, SandboxOutput, Texts, sandbox_create, options_of, to_mcp}

-- The body of an HTTP request with the fields of the tool's input.
abbrev pub request_of : CreateInput → CreateRequest
request_of in' = record {
  name = in'.name;
  profile = in'.profile;
  image = in'.image;
  cmd = in'.cmd;
  env = in'.env;
  cpus = in'.cpus;
  memory_mb = in'.memory_mb;
  ttl_sec = in'.ttl_sec;
}

abbrev pub view_of : SandboxOutput → View
view_of out = record { id = out.id; name = out.name; image = out.image; state = out.state }

module _ (K : Codec) (t : Texts) {R : Runtime} {S : Store} where
  -- A creation with an image or a profile comes to the same through the MCP server and through the
  -- HTTP API: the manager behind it is the same, and the tool returns a sandbox exactly where the
  -- handler answers 201 with that sandbox.
  pub sandbox_create-handle_create :
      (in' : CreateInput) (body : K.Body) (id : String) (now : ℕ) (m : Manager R S)
      → K.create_of body ≡ ok (request_of in')
      → (in'.image == "" && in'.profile == "") ≡ false
      → let (r, n) = sandbox_create t in' id now m in
        let (answer, n') = handle_create K body id now m in
        (n ≡ n')
        × (((e : Error) × (r ≡ err e) × (answer.status ≢ 201))
            ⊎ ((text : String) × (out : SandboxOutput) × (r
                  ≡ ok (record { text = some (t.bytes text); output = out }))
                × (answer ≡ reply K 201 (K.view (view_of out)))))
  unfolding sandbox_create handle_create
  sandbox_create-handle_create in' body id now m read named =
      elim (Result-cases (Create.create (options_of in') id now m).0) [
        | inl (sb, e) ↦ (
          ground (arith, read, named, e),
          inr (
            "created sandbox " <> sb.id,
            to_mcp sb,
            ground (arith, e),
            ground (arith, read, named, e),
          ),
        )
        | inr (x, e) ↦ (
          ground (arith, read, named, e),
          inl (x, ground (arith, e), ground (arith, read, named, e)),
        )
      ]
