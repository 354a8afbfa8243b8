-- ===== src/Mcp/Entry/Uptime.antt =====
-- A session of the MCP server and the pools of its policy.
use kotakpasir.Base.{
  ℕ, ◌≡◌, inl, inr, refl, subst, none, some, List, [], ◌∷◌, String, string_eq, Result, ok, arith,
  All, Result-cases, Option-cases, Bool-cases,
}
use kotakpasir.Base.Dict.{Dict, lookup, insert}
use kotakpasir.Base.Int.{pos}
use kotakpasir.Policy.{Policy, Image, Resolved}
use kotakpasir.Policy.Load.{load}
use kotakpasir.Policy.Resolve.{resolve}
use kotakpasir.Pool
use kotakpasir.Pool.{Pool}
use kotakpasir.Runtime.{Runtime}
use kotakpasir.Sandbox.{Store, CreateOptions}
use kotakpasir.Manager.{Manager, refresh_active, drop_log_buffer, log_buffer_for}
use kotakpasir.Manager.Create.{create, enter, request_of}
use kotakpasir.Manager.Lifecycle.{get, list, stop, delete}
use kotakpasir.Manager.Logs.{exec}
use kotakpasir.Manager.Pools.{try_claim, build_pools, build_onto, is_pooled, pool_spec_for}
use kotakpasir.Manager.Reload.{new_manager}
use kotakpasir.Metrics.Totals.{hits, misses}
use kotakpasir.Metrics.Balance.{
  IsBalanced, successes, create-Balances, delete-Balances, stop-Balances, exec-Balances,
}
use kotakpasir.Mcp.{
  Texts, options_of, exec_options, sandbox_create, sandbox_list, sandbox_get, sandbox_exec,
  sandbox_stop, sandbox_delete,
}
use kotakpasir.Mcp.Entry.{
  ToolCall, to_create, to_list, to_get, to_exec, to_stop, to_delete, boot, call, run,
}

-- Pools without a warm container.
abbrev IsEmpty : Dict Pool → Type 0
IsEmpty = All (λ (e : String × Pool). e.1.avail ≡ [])

insert-IsEmpty :
    (k : String) (p : Pool) (m : Dict Pool) → p.avail ≡ [] → IsEmpty m → IsEmpty (insert k p m)
unfolding insert
insert-IsEmpty k p [] h e = (h, tt)
insert-IsEmpty k p ((j, q) ∷ m) h e = ground (arith, h, e, insert-IsEmpty k p m h e.1)

lookup-IsEmpty :
    (k : String) (p : Pool) (m : Dict Pool) → IsEmpty m → lookup k m ≡ some p → p.avail ≡ []
unfolding lookup
lookup-IsEmpty k p [] e h = ground (arith, h)
lookup-IsEmpty k p ((j, q) ∷ m) e h = ground (arith, h, e, lookup-IsEmpty k p m e.1)

build_onto-IsEmpty :
    (pol : Policy) (imgs : List Image) (out : Dict Pool)
    → IsEmpty out
    → IsEmpty (build_onto pol imgs out)
unfolding build_onto Pool.new
build_onto-IsEmpty pol [] out e = e
build_onto-IsEmpty pol (img ∷ imgs) out e = elim (Bool-cases (is_pooled img)) [
  | inl pooled ↦ rw pooled (
      build_onto-IsEmpty pol imgs _ (
        insert-IsEmpty img.name
          (Pool.new (record { image = img.name; target = img.pool }) (pool_spec_for pol img)) out
          refl e))
  | inr alone ↦ rw alone (build_onto-IsEmpty pol imgs out e)
]

module _ {R : Runtime} {S : Store} where
  -- A manager with no warm container, which has never taken one and whose counts agree.
  record IsCold (m : Manager R S) : Type 0 where
    pub empty : IsEmpty m.pools
    pub hits : (i : String) → hits i m.metrics ≡ 0
    pub balance : (i : String) → IsBalanced i m.metrics

  try_claim_cold :
      (r : Resolved) (m : Manager R S)
      → IsEmpty m.pools
      → ((try_claim r m).0 ≡ none)
        × IsEmpty (try_claim r m).1.pools
        × ((try_claim r m).1.metrics ≡ m.metrics)
  unfolding try_claim Pool.get
  try_claim_cold r m e = elim (Option-cases (lookup r.image m.pools)) [
    | inl h ↦ ground (arith, h, e)
    | inr (p, h) ↦
        let cold = lookup-IsEmpty r.image p m.pools e h in
        ground (arith, h, e, cold, insert-IsEmpty r.image p m.pools cold e)
  ]

  create-IsCold :
      (opts : CreateOptions) (id : String) (now : ℕ) (m : Manager R S)
      → IsCold m
      → IsCold (create opts id now m).1
  unfolding create enter refresh_active
  create-IsCold opts id now m c = record {
    empty = elim (Result-cases (resolve m.policy (request_of opts))) [
      | inr (e, q) ↦ ground (arith, q, c.empty)
      | inl (r, q) ↦ ground (arith, q, try_claim_cold r m c.empty)
    ];
    hits = λ i. elim (Result-cases (resolve m.policy (request_of opts))) [
      | inr (e, q) ↦ ground (arith, q, c.hits i)
      | inl (r, q) ↦ ground (arith, q, c.hits i, try_claim_cold r m c.empty)
    ];
    balance = λ i. create-Balances i opts id now m (c.balance i);
  }

  call-IsCold : (t : Texts) (c : ToolCall) (m : Manager R S) → IsCold m → IsCold (call t c m)
  unfolding call sandbox_create sandbox_list sandbox_get sandbox_exec sandbox_stop sandbox_delete
      get list stop delete exec refresh_active drop_log_buffer log_buffer_for
  call-IsCold t (to_create in' id now) m c = create-IsCold (options_of in') id now m c
  call-IsCold t to_list m c = record { empty = c.empty; hits = c.hits; balance = c.balance }
  call-IsCold t (to_get id) m c = record { empty = c.empty; hits = c.hits; balance = c.balance }
  call-IsCold t (to_exec in' now) m c = record {
    empty = ground (arith, c.empty);
    hits = λ i. ground (arith, c.hits i);
    balance = λ i. exec-Balances i in'.id (exec_options in') now m (c.balance i);
  }
  call-IsCold t (to_stop id) m c = record {
    empty = ground (arith, c.empty);
    hits = λ i. ground (arith, c.hits i);
    balance = λ i. stop-Balances i id m (c.balance i);
  }
  call-IsCold t (to_delete id) m c = record {
    empty = ground (arith, c.empty);
    hits = λ i. ground (arith, c.hits i);
    balance = λ i. delete-Balances i id m (c.balance i);
  }

  run-IsCold : (t : Texts) (cs : List ToolCall) (m : Manager R S) → IsCold m → IsCold (run t cs m)
  unfolding run
  run-IsCold t [] m c = c
  run-IsCold t (x ∷ cs) m c = run-IsCold t cs (call t x m) (call-IsCold t x m c)

  boot-IsCold :
      (read : String → Result String) (parse : String → Result Policy) (path : String)
      (connected : Result R.State) (opened : Result S.State) (m : Manager R S)
      → boot read parse path connected opened ≡ ok m
      → IsCold m
  unfolding boot new_manager build_pools
  boot-IsCold read parse path connected opened m h = elim (Result-cases (load read parse path)) [
    | inr (e, l) ↦ absurd (ground (arith, h, l))
    | inl (pol, l) ↦ elim (Result-cases connected) [
      | inr (e, w) ↦ absurd (ground (arith, h, l, w))
      | inl (world, w) ↦ elim (Result-cases opened) [
        | inr (e, o) ↦ absurd (ground (arith, h, l, w, o))
        | inl (db, o) ↦
            let same : new_manager world db (some pol) (pos 0) ≡ m = ground (arith, h, l, w, o) in
            subst IsCold same (record {
              empty = build_onto-IsEmpty pol pol.images [] tt;
              hits = λ i. refl;
              balance = λ i. refl;
            })
      ]
    ]
  ]

  -- Whatever tools an agent calls, and whatever pools the policy asks for: from its start on, the manager
  -- behind the MCP server has never told its recorder of a hit of a pool, and for each image it has told it
  -- of as many misses as of successful creations.
  pub run-boot_cold :
      (t : Texts) (read : String → Result String) (parse : String → Result Policy) (path : String)
      (connected : Result R.State) (opened : Result S.State) (cs : List ToolCall) (m : Manager R S)
      (image : String)
      → boot read parse path connected opened ≡ ok m
      → let counted = (run t cs m).metrics in
        (hits image counted ≡ 0) × (misses image counted ≡ successes image counted)
  run-boot_cold t read parse path connected opened cs m image h =
      let c = run-IsCold t cs m (boot-IsCold read parse path connected opened m h) in
      (c.hits image, ground (arith, c.hits image, c.balance image))
