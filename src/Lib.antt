-- ===== src/Lib.antt =====
-- Verification library of kotakpasir, a daemon that runs sandboxes in containers: its policy, its warm
-- pools, its log buffers, its store, and the manager that ties them together.
--
-- The parts, and the code that each one follows:
--   Policy     internal/policy/policy.go. `validate` is `(*Policy).Validate` and `resolve` is
--              `(*Policy).Resolve`, cut into the steps of its body (Policy/Resolve). A policy file is the
--              record `Policy`; a map is an association list (Base/Dict). Policy/Load is `Load`, with the file
--              and the YAML decoder as parameters.
--   LogBuf     internal/sandbox/logbuf/logbuf.go. `write` is `(*Buffer).write`, with the eviction loop
--              and the send that drops an entry when a channel is full.
--   Runtime    internal/runtime/runtime.go. A container backend is a parameter: the record `Runtime`
--              holds its state and its methods, and nothing is assumed of them.
--   Pool       internal/pool/pool.go. `start`, `get`, `refill` and `shutdown` on the pool's record.
--              Pool/Ownership runs claims, shutdown and the spawning goroutine as interleaved steps.
--   Sandbox    internal/sandbox/sandbox.go and store.go. The record `Store` is the interface; the record
--              `Contract` says what the manager's theorems use of a store.
--   Store      internal/sandbox/store/sqlite/sqlite.go. A table is a list of rows, Store/Table has the
--              statements, and Store/Contract the store as an instance of the contract.
--   Manager    internal/sandbox/manager.go and reaper.go. `Manager R S` is the manager's struct with the
--              states of its runtime and its store; a method is a function from it to a result and the
--              manager after it. Pools, Create, Lifecycle, Logs, Reload and Health hold the methods.
--              Manager/Lifecycle/Sweep and Manager/Lifecycle/Reaping are about the reaper over the SQL store.
--   Docker     internal/runtime/docker/docker.go, over the Docker client as the record `Client`.
--              Docker/Provision has `Create` with the proxy and the network of an egress allowlist, and keeps
--              a journal of what was made and what was asked to be removed. Docker/Exec has the rest.
--              Docker/Backend is the backend as the runtime that the manager gets, and Docker/Restart follows a
--              claim of a warm container and the next start of kpd through both.
--   Sse        the event stream: `(*sseWriter).send` of internal/api/handlers.go and `parseSSE` of
--              pkg/kotakpasir/exec_stream.go, on bytes.
--   Api        internal/api. Api/Handlers has the handlers over the manager, Api/Server the routes and the
--              check of the token. The Fiber framework and the JSON library are the record `Codec`.
--   Client     pkg/kotakpasir, its methods in Client/Methods. The network is a parameter; Client/Wire puts the
--              HTTP API there, so that Client/Journeys and Client/Streams follow a call from the client to the manager and back.
--              Client/Wait is `WaitFor`.
--   Proxy      internal/proxy/proxy.go and cmd/kpproxy/main.go: the decision on a CONNECT request, and what
--              the proxy reads from the environment that the Docker backend gives it (Proxy/Env).
--   Mcp        internal/mcp/server.go: the tools over the manager, and their agreement with Api. Mcp/Entry is
--              cmd/kpmcp/main.go: the start, and a session as a list of calls of tools.
--   Daemon     cmd/kpd/main.go: the start, and a run as a list of events, each a request, a tick of the
--              reaper or a SIGHUP; Daemon/Config is internal/config/config.go.
--   Cli        cmd/kp: `kp`, its subcommands over the client library (Cli/Commands), `watch` (Cli/Watch), and
--              how a subcommand ends. Cli/Execution runs `kp exec` against the HTTP API, and
--              Cli/Execution/Stopped runs it behind a `kp stop`.
--   Metrics    internal/metrics/metrics.go over a Prometheus client that is a parameter; Metrics/Balance
--              follows the manager's calls of the recorder through a run of the daemon.
--   Registry   internal/registry/registry.go: a map behind a lock.
--   Runtime/Suite   internal/runtime/runtimetest/runtimetest.go: the conformance suite, as methods on the
--              state of a test over any backend.
--   Base       shared helpers: equality tests, lists, maps, integers, errors, state passing.
-- The manager resolves a request with the policy, claims a container from the pool of its image or asks
-- the runtime for one, and puts the sandbox into the store. The reaper asks the store for what has expired
-- and deletes it through the manager.
--
-- Choices of the model:
--   An error is a value: a sentinel, a message with its format and its texts, or a wrapped error.
--   Numbers in a format are left out.
--   CPU counts (`float64`) are integers in units of 10⁻⁹ cores; times and durations are in nanoseconds,
--   times counted from 1970; bytes are numbers. The integers do not wrap, as
--   nothing else comes near 2^63, but for the time to live of an HTTP request (Api) and the memory of a
--   container in bytes (Docker); both wrap as an `int64` does (Base/Words).
--   What the two JSON libraries do is a hypothesis: of a request, that its body comes through as it was.
--   The clock and the source of ids are arguments. What the runtime, the JSON codec or the database answer
--   is a parameter: for the database, a list of the faults of the statements to come.
--   A loop over a Go map goes in the order of the list; the theorems hold for every order of it.
--   The pool's list of warm containers has the end of the Go slice in front.
--   The inner loop of the refiller runs on fuel, one more than the target: every round but the last
--   adds a container, and the loop ends at the target.
--   A call on the manager is one step. Calls that overlap are modelled for the pool, whose steps are those
--   of its lock, and for `Stop` and `Delete` (Manager/Overlap), whose steps are their calls.
--   The waits of `WaitFor` and `watch` are counted in ticks before the context is done.
--   A path is the list of its parts; ids have no slash, question mark or number sign.
-- Not modelled: the reading of command lines, the entry points' signals and listeners, the sample
-- programs, and log lines. They are glue around other libraries, or stand behind the parameters.
pub mod Base
pub mod Policy
pub mod LogBuf
pub mod Runtime
pub mod Pool
pub mod Sandbox
pub mod Store
pub mod Manager
pub mod Docker
pub mod Sse
pub mod Daemon
pub mod Mcp
pub mod Client
pub mod Api
pub mod Proxy
pub mod Cli
pub mod Registry
pub mod Metrics
