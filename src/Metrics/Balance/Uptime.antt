-- ===== src/Metrics/Balance/Uptime.antt =====
-- The balance of hits, misses and creations, over a run of the daemon.
use kotakpasir.Base.{
  ℕ, ◌+◌, ◌≡◌, inl, inr, refl, sym, ap, subst, ◌∙◌, Bool, true, false, none, some, List, [], ◌∷◌,
  String, ◌==◌, string_eq, ok, arith, Result-cases, Option-cases, Bool-cases,
}
use kotakpasir.Base.Int.{ℤ}
use kotakpasir.Runtime.{Runtime}
use kotakpasir.Sandbox.{Store}
use kotakpasir.Policy.Load.{load}
use kotakpasir.Manager.{Manager}
use kotakpasir.Manager.Lifecycle
use kotakpasir.Manager.Logs.{LogsOptions}
use kotakpasir.Manager.Reload
use kotakpasir.Manager.Reload.{new_manager}
use kotakpasir.Manager.Reload.Atomic.{replace_policy_outcome}
use kotakpasir.Api.{Codec}
use kotakpasir.Api.Handlers.{
  LogsQuery, options_of, exec_options, tail_of, is_follow, handle_health, handle_create,
  handle_list, handle_get, handle_delete, handle_stop, handle_proxy, handle_logs, handle_exec,
  handle_exec_stream,
}
use kotakpasir.Api.Server.{
  Settings, Moment, Request, Route, to_health, to_metrics, to_create, to_list, to_get, to_proxy,
  to_logs, to_delete, to_stop, to_exec, to_exec_stream, route, handle, dispatch, serve,
}
use kotakpasir.Api.Access.{serve_outcome}
use kotakpasir.Daemon.{
  PolicyConfig, Files, Event, requested, ticked, hung_up, boot, reload, react, run,
}
use kotakpasir.Daemon.Invariant.{reload_loaded, boot_started}
use kotakpasir.Metrics.Totals.{hits, misses}
use kotakpasir.Metrics.Balance.{
  IsBalanced, Balances, successes, create-Balances, delete-Balances, stop-Balances, exec-Balances,
  logs-Balances, sweep-Balances,
}

module _ (K : Codec) (i : String) {R : Runtime} {S : Store} where
  handle_create-Balances :
      (body : K.Body) (id : String) (now : ℕ) (m : Manager R S)
      → Balances i m (handle_create K body id now m).1
  unfolding handle_create
  handle_create-Balances body id now m h = elim (Result-cases (K.create_of body)) [
    | inl (req, e) ↦ ground (arith, e, h, create-Balances i (options_of req) id now m h)
    | inr (x, e) ↦ ground (arith, e, h)
  ]

  handle_exec-Balances :
      (id : String) (body : K.Body) (now : ℕ) (m : Manager R S)
      → Balances i m (handle_exec K id body now m).1
  unfolding handle_exec
  handle_exec-Balances id body now m h = elim (Result-cases (K.exec_of body)) [
    | inl (req, e) ↦ ground (arith, e, h, exec-Balances i id (exec_options req false) now m h)
    | inr (x, e) ↦ ground (arith, e, h)
  ]

  handle_exec_stream-Balances :
      (id : String) (body : K.Body) (now : ℕ) (m : Manager R S)
      → Balances i m (handle_exec_stream K id body now m).1
  unfolding handle_exec_stream
  handle_exec_stream-Balances id body now m h = elim (Result-cases (K.exec_of body)) [
    | inl (req, e) ↦ ground (arith, e, h, exec-Balances i id (exec_options req true) now m h)
    | inr (x, e) ↦ ground (arith, e, h)
  ]

  handle_logs-Balances :
      (id : String) (q : LogsQuery) (m : Manager R S) → Balances i m (handle_logs K id q m).1
  unfolding handle_logs
  handle_logs-Balances id q m h = elim (Option-cases (tail_of K q.tail)) [
    | inl e ↦ ground (arith, e, h)
    | inr (n, e) ↦
        let opts : LogsOptions = record { tail = n; follow = is_follow K q.follow } in
        ground (arith, e, h, logs-Balances i id opts m h)
  ]

  handle-Balances :
      (s : Settings K.Body) (at : Moment) (q : Request K.Body) (r : Route) (m : Manager R S)
      → Balances i m (handle K s at q r m).1
  unfolding handle handle_health handle_list handle_get handle_delete handle_stop handle_proxy
      Lifecycle.get Lifecycle.list Lifecycle.proxy_addr
  handle-Balances s at q to_health m h = h
  handle-Balances s at q to_metrics m h = h
  handle-Balances s at q to_create m h = handle_create-Balances q.body at.new_id at.now m h
  handle-Balances s at q to_list m h = h
  handle-Balances s at q (to_get id) m h = h
  handle-Balances s at q (to_proxy id) m h = ground (arith, h)
  handle-Balances s at q (to_logs id) m h = handle_logs-Balances id q.query m h
  handle-Balances s at q (to_delete id) m h = delete-Balances i id m h
  handle-Balances s at q (to_stop id) m h = stop-Balances i id m h
  handle-Balances s at q (to_exec id) m h = handle_exec-Balances id q.body at.now m h
  handle-Balances s at q (to_exec_stream id) m h = handle_exec_stream-Balances id q.body at.now m h

  dispatch-Balances :
      (s : Settings K.Body) (at : Moment) (q : Request K.Body) (m : Manager R S)
      → Balances i m (dispatch K s at q m).1
  unfolding dispatch
  dispatch-Balances s at q m h =
      let with_metrics : Bool = elim s.metrics [ some _ ↦ true | none ↦ false ] in
      elim (Option-cases (route with_metrics q.method q.path)) [
        | inl e ↦ rw (e, dispatch) h
        | inr (r, e) ↦ rw (e, dispatch) (handle-Balances s at q r m h)
      ]

  serve-Balances :
      (s : Settings K.Body) (at : Moment) (q : Request K.Body) (m : Manager R S)
      → Balances i m (serve K s at q m).1
  serve-Balances s at q m h = elim (serve_outcome K s at q m) [
    | inl (_, e) ↦ rw e (dispatch-Balances s at q m h)
    | inr (_, e) ↦ rw e h
  ]

  reload_metrics :
      (f : Files) (path : String) (m : Manager R S) → (reload f path m).metrics ≡ m.metrics
  unfolding reload
  reload_metrics f path m = elim (Bool-cases (path == "")) [
    | inl blank ↦ ground (arith, blank)
    | inr named ↦ elim (Result-cases (load f.read f.parse path)) [
      | inr (e, l) ↦ ground (arith, named, l)
      | inl (pol, l) ↦
          rw (reload_loaded f path m pol named l) (elim (replace_policy_outcome pol path m) [
            | inl (_, _, (set, _)) ↦ ap (λ (n : Manager R S). n.metrics) set
            | inr (e, _, same) ↦ ap (λ (n : Manager R S). n.metrics) same
          ])
    ]
  ]

  react-Balances :
      (s : Settings K.Body) (cfg : PolicyConfig) (e : Event K.Body) (m : Manager R S)
      → Balances i m (react K s cfg e m)
  unfolding react
  react-Balances s cfg (requested at q) m h = serve-Balances s at q m h
  react-Balances s cfg (ticked now) m h = sweep-Balances i now m h
  react-Balances s cfg (hung_up f) m h = subst (IsBalanced i) (sym (reload_metrics f cfg.file m)) h

  run-Balances :
      (s : Settings K.Body) (cfg : PolicyConfig) (es : List (Event K.Body)) (m : Manager R S)
      → Balances i m (run K s cfg es m)
  unfolding run
  run-Balances s cfg [] m h = h
  run-Balances s cfg (e ∷ es) m h =
      run-Balances s cfg es (react K s cfg e m) (react-Balances s cfg e m h)

  start_metrics : (m : Manager R S) → (Reload.start m).1.metrics ≡ m.metrics
  unfolding Reload.start
  start_metrics m = ground arith

  -- From its start on, whatever requests, ticks of the reaper and signals come in whatever order, the
  -- daemon has counted for each image as many hits and misses of its pool together as successful
  -- creations.
  pub run-boot_balance :
      (f : Files) (s : Settings K.Body) (cfg : PolicyConfig) (log_cap : ℤ) (world : R.State)
      (db : S.State) (es : List (Event K.Body)) (m : Manager R S)
      → boot f cfg log_cap world db ≡ ok m
      → let counted = (run K s cfg es m).metrics in
        hits i counted + misses i counted ≡ successes i counted
  unfolding new_manager
  run-boot_balance f s cfg log_cap world db es m h =
      let (pol, _, same) = boot_started f cfg log_cap world db m h in
      let empty =
        ap (λ (n : Manager R S). n.metrics) same
        ∙ start_metrics (new_manager world db (some pol) log_cap) in
      run-Balances s cfg es m (subst (IsBalanced i) (sym empty) refl)
