-- ===== src/Manager/Create/Origin.antt =====
-- Where the container of a created sandbox comes from, and what the request says of the sandbox.
use kotakpasir.Base.{
  ℕ, ◌+◌, ◌≡◌, ◌⊎◌, inl, inr, sym, ap, ◌∙◌, false, none, some, List, ◌∷◌, String, if◌then◌else◌,
  Result, ok, arith, Result-cases, Option-cases,
}
use kotakpasir.Base.Dict.{lookup}
use kotakpasir.Base.Int.{is_pos, to_ℕ}
use kotakpasir.Policy.{Resolved}
use kotakpasir.Pool.{Pool}
use kotakpasir.Runtime.{Runtime, Handle}
use kotakpasir.Sandbox.{Sandbox, Store, CreateOptions}
use kotakpasir.Manager.{Manager, refresh_active}
use kotakpasir.Manager.Create.{spec_of, enter, cold_start, provide, new_sandbox}
use kotakpasir.Manager.Create.Entry.{launched}
use kotakpasir.Manager.Pools.{try_claim}
use kotakpasir.Manager.Pools.Matching.{try_claim-IsClaim}

-- The sandbox has the new id and the time, and all that the resolved request says of it.
pub record IsFor (r : Resolved) (new_id : String) (now : ℕ) (out : Sandbox) : Type 0 where
  pub id : out.id ≡ new_id
  pub name : out.name ≡ r.name
  pub image : out.image ≡ r.image
  pub cpus : out.cpus ≡ r.cpus
  pub memory_mb : out.memory_mb ≡ r.memory_mb
  pub env : out.env ≡ r.env
  pub labels : out.labels ≡ r.labels
  pub created_at : out.created_at ≡ now
  pub expires_at : out.expires_at ≡ (if is_pos r.ttl then some (now + to_ℕ r.ttl) else none)

pub new_sandbox-IsFor :
    (r : Resolved) (id : String) (now : ℕ) (out : Sandbox)
    → out ≡ launched (new_sandbox r id now) out.runtime_id
    → IsFor r id now out
unfolding new_sandbox
new_sandbox-IsFor r id now out h = record {
  id = ap (λ (o : Sandbox). o.id) h;
  name = ap (λ (o : Sandbox). o.name) h;
  image = ap (λ (o : Sandbox). o.image) h;
  cpus = ap (λ (o : Sandbox). o.cpus) h;
  memory_mb = ap (λ (o : Sandbox). o.memory_mb) h;
  env = ap (λ (o : Sandbox). o.env) h;
  labels = ap (λ (o : Sandbox). o.labels) h;
  created_at = ap (λ (o : Sandbox). o.created_at) h;
  expires_at = ap (λ (o : Sandbox). o.expires_at) h;
}

module _ {R : Runtime} {S : Store} where
  -- The container of a sandbox: it stood at the end of the open pool of the image, and the runtime was not
  -- asked; or the runtime has created it for this request.
  abbrev pub IsHoused : Resolved → String → Sandbox → Manager R S → Manager R S → Type 0
  IsHoused r id out m n =
      ((p : Pool) × (rest : List String) × (lookup r.image m.pools ≡ some p)
        × (p.closed ≡ false)
        × (p.avail ≡ out.runtime_id ∷ rest)
        × (n.world ≡ m.world))
      ⊎ ((h : Handle) × ((R.create (spec_of r id) m.world).0 ≡ ok h)
          × ((R.create (spec_of r id) m.world).1 ≡ n.world)
          × (out.runtime_id ≡ h.id))

  try_claim_world : (r : Resolved) (m : Manager R S) → (try_claim r m).1.world ≡ m.world
  unfolding try_claim
  try_claim_world r m = ground arith

  provide_claimed :
      (opts : CreateOptions) (r : Resolved) (sb out : Sandbox) (m : Manager R S) (id : String)
      → (try_claim r m).0 ≡ some id
      → (provide opts r sb m).0 ≡ ok out
      → (out.runtime_id ≡ id) × ((provide opts r sb m).1.world ≡ (try_claim r m).1.world)
  unfolding provide enter refresh_active
  provide_claimed opts r sb out m id e h = ground (arith, e, h)

  cold_start_housed :
      (opts : CreateOptions) (r : Resolved) (sb out : Sandbox) (m : Manager R S)
      → (cold_start opts r sb m).0 ≡ ok out
      → (h : Handle) × ((R.create (spec_of r sb.id) m.world).0 ≡ ok h)
        × ((R.create (spec_of r sb.id) m.world).1 ≡ (cold_start opts r sb m).1.world)
        × (out.runtime_id ≡ h.id)
  unfolding cold_start enter refresh_active
  cold_start_housed opts r sb out m q = elim (Result-cases (R.create (spec_of r sb.id) m.world).0) [
    | inl (h, e) ↦ (h, e, ground (arith, e, q), ground (arith, e, q))
    | inr (x, e) ↦ absurd (ground (arith, e, q))
  ]

  provide_cold :
      (opts : CreateOptions) (r : Resolved) (sb : Sandbox) (m : Manager R S)
      → (try_claim r m).0 ≡ none
      → provide opts r sb m ≡ cold_start opts r sb (try_claim r m).1
  unfolding provide
  provide_cold opts r sb m e = rw (e, provide)

  pub provide-IsHoused :
      (opts : CreateOptions) (r : Resolved) (sb out : Sandbox) (m : Manager R S)
      → (provide opts r sb m).0 ≡ ok out
      → IsHoused r sb.id out m (provide opts r sb m).1
  provide-IsHoused opts r sb out m h = elim (Option-cases (try_claim r m).0) [
    | inr (id, e) ↦
        let (same, world) = provide_claimed opts r sb out m id e h in
        let (_, c) = try_claim-IsClaim R S m r id e in
        inl (
          c.pool,
          c.rest,
          c.found,
          c.open_pool,
          c.last ∙ ap (λ x. x ∷ c.rest) (sym same),
          world ∙ try_claim_world r m,
        )
    | inl e ↦
        let cold = provide_cold opts r sb m e in
        let (handle, made, world, same) =
          cold_start_housed opts r sb out (try_claim r m).1
            (ap (λ (x : Result Sandbox × Manager R S). x.0) (sym cold) ∙ h) in
        let w = try_claim_world r m in
        inr (
          handle,
          ap (λ x. (R.create (spec_of r sb.id) x).0) (sym w) ∙ made,
          ap (λ x. (R.create (spec_of r sb.id) x).1) (sym w)
              ∙ world
              ∙ ap (λ (x : Result Sandbox × Manager R S). x.1.world) (sym cold),
          same,
        )
  ]
