-- ===== src/Docker/Backend.antt =====
-- internal/runtime/docker/docker.go: the backend as the runtime that the manager gets. Its two clients are
-- one in the program: one makes and removes, the other runs commands. `elapsed` is what a command takes.
use kotakpasir.Base.{some, String, Result}
use kotakpasir.Base.Int.{ℤ}
use kotakpasir.Runtime.{Runtime, Spec, ExecSpec}
use kotakpasir.Docker.{Client}
use kotakpasir.Docker.Exec
use kotakpasir.Docker.Exec.{ExecClient}
use kotakpasir.Docker.Provision
use kotakpasir.Docker.Provision.{Docker}

module _ (C : Client) (E : ExecClient) (proxy_image : String) (elapsed : ℤ)
    (pinged : Docker C × E.State → Result (Unit {0})) where
  -- `(*Runtime).Ping`
  abbrev pub ping : Docker C × E.State → Result (Unit {0})
  ping s = pinged s

  abbrev pub backend : Runtime
  backend = record {
    State = Docker C × E.State;
    create = λ (spec : Spec) (s : Docker C × E.State).
        let (r, d) = Provision.create proxy_image spec s.0 in (r, (d, s.1));
    exec = λ (id : String) (spec : ExecSpec) (s : Docker C × E.State).
        let (r, ws, e) = Exec.exec E id spec elapsed s.1 in (r, ws, (s.0, e));
    stop =
        λ (id : String) (s : Docker C × E.State). let (r, e) = Exec.stop E id s.1 in (r, (s.0, e));
    remove = λ (id : String) (s : Docker C × E.State).
        let (r, d) = Provision.remove id s.0 in (r, (d, s.1));
    ping = some ping;
    clean_pool_orphans = some (λ (s : Docker C × E.State).
        let (r, d) = Provision.clean_pool_orphans s.0 in (r, (d, s.1)));
    ensure_image = some (λ (ref : String) (s : Docker C × E.State).
        let (r, d) = Provision.ensure_image ref s.0 in (r, (d, s.1)));
    proxy_addr = some (λ (id : String) (s : Docker C × E.State). Provision.proxy_addr id s.0);
  }
