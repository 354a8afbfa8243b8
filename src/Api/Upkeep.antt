-- ===== src/Api/Upkeep.antt =====
-- What every request to the HTTP API keeps.
use kotakpasir.Base.{
  ℕ, inl, inr, refl, none, some, String, arith, Result-cases, Option-cases, Bool, true, false,
}
use kotakpasir.Runtime.{Runtime}
use kotakpasir.Sandbox.{Store}
use kotakpasir.Sandbox.Contract.{Contract}
use kotakpasir.Manager.{Manager}
use kotakpasir.Manager.Upkeep.{
  Keeps, get-Keeps, list-Keeps, proxy_addr-Keeps, create-Keeps, stop-Keeps, delete-Keeps,
  exec-Keeps, logs-Keeps,
}
use kotakpasir.Api.{Codec}
use kotakpasir.Api.Handlers.{
  LogsQuery, options_of, exec_options, tail_of, is_follow, handle_health, handle_create,
  handle_list, handle_get, handle_delete, handle_stop, handle_proxy, handle_logs, handle_exec,
  handle_exec_stream,
}
use kotakpasir.Api.Server.{
  Settings, Moment, Request, Route, to_health, to_metrics, to_create, to_list, to_get, to_proxy,
  to_logs, to_delete, to_stop, to_exec, to_exec_stream, route, handle, dispatch, serve,
}
use kotakpasir.Api.Access.{serve_outcome}

module _ (K : Codec) {R : Runtime} {S : Store} (C : Contract S) where
  same-Keeps : (m : Manager R S) → C.IsGood m.db → Keeps C m m
  same-Keeps m g = record { good = g; policy = refl }

  handle_create-Keeps :
      (body : K.Body) (id : String) (now : ℕ) (m : Manager R S)
      → C.IsGood m.db
      → Keeps C m (handle_create K body id now m).1
  unfolding handle_create
  handle_create-Keeps body id now m g = elim (Result-cases (K.create_of body)) [
    | inl (req, e) ↦
        let kept = create-Keeps C (options_of req) id now m g in
        record { good = ground (arith, e, g, kept.good); policy = ground (arith, e, kept.policy) }
    | inr (x, e) ↦ record { good = ground (arith, e, g); policy = ground (arith, e) }
  ]

  handle_exec-Keeps :
      (id : String) (body : K.Body) (now : ℕ) (m : Manager R S)
      → C.IsGood m.db
      → Keeps C m (handle_exec K id body now m).1
  unfolding handle_exec
  handle_exec-Keeps id body now m g = elim (Result-cases (K.exec_of body)) [
    | inl (req, e) ↦
        let kept = exec-Keeps C id (exec_options req false) now m g in
        record { good = ground (arith, e, g, kept.good); policy = ground (arith, e, kept.policy) }
    | inr (x, e) ↦ record { good = ground (arith, e, g); policy = ground (arith, e) }
  ]

  handle_exec_stream-Keeps :
      (id : String) (body : K.Body) (now : ℕ) (m : Manager R S)
      → C.IsGood m.db
      → Keeps C m (handle_exec_stream K id body now m).1
  unfolding handle_exec_stream
  handle_exec_stream-Keeps id body now m g = elim (Result-cases (K.exec_of body)) [
    | inl (req, e) ↦
        let kept = exec-Keeps C id (exec_options req true) now m g in
        record { good = ground (arith, e, g, kept.good); policy = ground (arith, e, kept.policy) }
    | inr (x, e) ↦ record { good = ground (arith, e, g); policy = ground (arith, e) }
  ]

  handle_logs-Keeps :
      (id : String) (q : LogsQuery) (m : Manager R S)
      → C.IsGood m.db
      → Keeps C m (handle_logs K id q m).1
  unfolding handle_logs
  handle_logs-Keeps id q m g = elim (Option-cases (tail_of K q.tail)) [
    | inl e ↦ record { good = ground (arith, e, g); policy = ground (arith, e) }
    | inr (n, e) ↦
        let kept = logs-Keeps C id (record { tail = n; follow = is_follow K q.follow }) m g in
        record { good = ground (arith, e, kept.good); policy = ground (arith, e, kept.policy) }
  ]

  handle-Keeps :
      (s : Settings K.Body) (at : Moment) (q : Request K.Body) (r : Route) (m : Manager R S)
      → C.IsGood m.db
      → Keeps C m (handle K s at q r m).1
  unfolding handle handle_health handle_list handle_get handle_delete handle_stop handle_proxy
  handle-Keeps s at q to_health m g = same-Keeps m g
  handle-Keeps s at q to_metrics m g = same-Keeps m g
  handle-Keeps s at q to_create m g = handle_create-Keeps q.body at.new_id at.now m g
  handle-Keeps s at q to_list m g = list-Keeps C m g
  handle-Keeps s at q (to_get id) m g = get-Keeps C id m g
  handle-Keeps s at q (to_proxy id) m g = proxy_addr-Keeps C id m g
  handle-Keeps s at q (to_logs id) m g = handle_logs-Keeps id q.query m g
  handle-Keeps s at q (to_delete id) m g = delete-Keeps C id m g
  handle-Keeps s at q (to_stop id) m g = stop-Keeps C id m g
  handle-Keeps s at q (to_exec id) m g = handle_exec-Keeps id q.body at.now m g
  handle-Keeps s at q (to_exec_stream id) m g = handle_exec_stream-Keeps id q.body at.now m g

  dispatch-Keeps :
      (s : Settings K.Body) (at : Moment) (q : Request K.Body) (m : Manager R S)
      → C.IsGood m.db
      → Keeps C m (dispatch K s at q m).1
  unfolding dispatch
  dispatch-Keeps s at q m g =
      let with_metrics : Bool = elim s.metrics [ some _ ↦ true | none ↦ false ] in
      elim (Option-cases (route with_metrics q.method q.path)) [
        | inl e ↦ rw (e, dispatch) (same-Keeps m g)
        | inr (r, e) ↦ rw (e, dispatch) (handle-Keeps s at q r m g)
      ]

  -- Whatever a request asks for, a good store stays good and the policy is the one before.
  pub serve-Keeps :
      (s : Settings K.Body) (at : Moment) (q : Request K.Body) (m : Manager R S)
      → C.IsGood m.db
      → Keeps C m (serve K s at q m).1
  serve-Keeps s at q m g = elim (serve_outcome K s at q m) [
    | inl (_, e) ↦ rw e (dispatch-Keeps s at q m g)
    | inr (_, e) ↦ rw e (same-Keeps m g)
  ]
