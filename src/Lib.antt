-- ===== src/Lib.antt =====
-- Models and proofs for Toska Mesh, a service mesh in Go: a discovery server in front of Consul, a
-- health monitor that probes the registered instances, a load balancer, and a gateway that routes HTTP
-- requests to healthy instances.
--
-- The parts and the files that model them:
--   Types                   internal/types/health.go: the health statuses.
--   HealthMonitor/Breaker   internal/healthmonitor/breaker.go: `Allow` is `allow`, `RecordSuccess` and
--     `RecordFailure` are `record_success` and `record_failure`, `State` is `current_state`. The probe
--     worker and the proxy keep one breaker for each service ID.
--   HealthMonitor/Cache     internal/healthmonitor/cache.go: a method is a function of its name.
--   HealthMonitor/Worker, HealthMonitor/Probe, HealthMonitor/Config
--     internal/healthmonitor/worker.go and config.go: `probeAll` is `probe_all`;
--     it lists Consul's services, probes every instance behind its breaker, stores the results in the
--     cache and publishes the changes of status.
--   HealthMonitor/Server    cmd/healthmonitor/main.go and `Worker.Run`: the settings, the loop of cycles
--     (`run_monitor`) and the HTTP API (`respond`).
--   HealthMonitor/Command   `run` of cmd/healthmonitor/main.go, from the settings to the closing of the
--     publisher (`run_health_monitor`).
--   Router                  internal/router/router.go and balancer.go: `Select` is `select`,
--     `ReportResult` is `report_result`, `Stats` is `stats_of`; Strategies holds the picks that keep no
--     state, Tracking the statistics, Balancer the state and the operations. Interleave lets several
--     threads call `selectLeastConnections` and `ReportResult` at once, one shared access at a time
--     (`Move`): Counts and Safe follow the counters, Progress and Ends the end of the calls.
--   Messaging               internal/messaging/events.go and publisher.go: `NewPublisher`,
--     `Publish` and `Close` are `new_publisher`, `publish` and `close`, `generateID` is `generate_id`.
--     Lifecycle follows the connections that a publisher opens.
--   Consul                  internal/consul/registry.go: the registry over an agent, which is a record
--     of functions on a state (`Agent`). Discovery, HealthMonitor and Gateway call it. Catalog holds an
--     agent that behaves as Consul documents it (`Documented`).
--   Discovery               internal/discovery/server.go: the five handlers of the gRPC service, with
--     Messages (requests, responses, addresses) and Tracking (what the server remembers).
--   Discovery/Command       `run` of cmd/discovery/main.go: the start, the calls and the end of the
--     server (`run_discovery`).
--   Gateway/RateLimiter, Gateway/Cors, Gateway/Jwt, Gateway/ClientIp   internal/gateway/middleware.go.
--   Gateway/Config          internal/gateway/config.go and `loadConfig` of cmd/gateway/main.go.
--   Gateway/Chain           `run` of cmd/gateway/main.go: `handle` is the chain CORS, rate limiter, JWT,
--     mux, proxy. Gateway/Command is the whole of `run` (`run_gateway`).
--   Gateway/Logging         `RequestLogging` of internal/gateway/middleware.go, and the calls of the
--     response writer that the proxy makes.
--   Gateway/Dashboard       internal/gateway/dashboard.go: the proxied endpoints, the service catalog
--     (Catalog) and the service token (Token).
--   Gateway/Routes          internal/gateway/routes.go: `refresh` fills the table from the registry,
--     `Lookup` is `lookup_backend`.
--   Gateway/Proxy           internal/gateway/proxy.go: `ServeHTTP` is `serve_http`, a round of its loop
--     is `attempt`. Interleave splits an attempt in two steps, `enter` and `complete`, and lets the
--     steps of different requests come in any order. Bodies follows the body of a request through its
--     rounds.
--   Prelude                 shared helpers: Tests (Boolean tests), Lists, Int (Go's int64), Dict (maps),
--     Text, Cut, Trim and Digits (strings), Order (sorting), Net (IP addresses), Env (environment
--     variables), Result. Gateway/Http holds requests and headers.
-- The other modules named Tests hold runs at concrete inputs.
--
-- How the code is read: a method that holds a lock for its whole body is one step on the state, and
-- calls come one after another, except in Gateway/Proxy/Interleave and Router/Interleave. Go's int
-- and int64 are ℤ with the wrap-around of `add64` written out. Instants are natural numbers of
-- nanoseconds from Go's zero time; durations are ℤ and wrap at 64 bits (`seconds`), and an instant
-- plus a duration (`instant_after`) is not before the zero time. A map is an association list in the order of insertion, and a loop over a
-- map runs in that order. Letter case is that of ASCII, text is valid UTF-8. Loops are structural
-- recursion on the list that they run over; the rounds of the proxy are counted down from the retry
-- count plus one, and decimal and hexadecimal digits are printed on fuel one above the number,
-- which has fewer digits. The log is left out, but for that of the requests (Gateway/Logging).
--
-- What is not under the repository is an argument: the Consul agent (`Agent`), RabbitMQ (`Broker`), the
-- network and the clock (`Surroundings`, `Clock`, `Attempt`, `Arrival`, `Client`), Go's net package
-- (`Net`) and `http.ServeMux` (`Library.mux`), HMAC, base64 and JSON (`Crypto`, `Signer`), the random
-- numbers (`Random`, with the documented range `IsRandom`), and the environment (`getenv`).
--
-- Not modelled: the HTTP and gRPC servers and the signals that stop them, the generated code under
-- pkg/meshpb, the tickers that call `refresh` and the eviction, `BuildBackendURL` (which rests on
-- net/url, and which nothing calls), and the delay before a retry (floating point) with its parameters.
pub mod Prelude
pub mod Types
pub mod HealthMonitor
pub mod Router
pub mod Messaging
pub mod Consul
pub mod Discovery
pub mod Gateway
