-- ===== src/Gateway/Chain.antt =====
-- `run` of cmd/gateway/main.go: the chain of middleware in front of the gateway's handlers, with
-- `RateLimiter.Middleware` of internal/gateway/middleware.go. `http.ServeMux` is an argument: for the
-- route prefix, the method and the path it names the handler; it may also answer itself (a redirect,
-- 404 or 405). Of the health check and the dashboard only the call is recorded. Request logging,
-- which wraps this chain, is in Gateway/Logging.
pub mod Guard
pub mod Limits
pub mod Tests
use toska_mesh.Prelude.{ℕ, String, Option, none, some, [], if◌then◌else◌}
use toska_mesh.Prelude.Int.{ℤ}
use toska_mesh.Prelude.Dict.{Dict}
use toska_mesh.Prelude.Net.{Net}
use toska_mesh.Gateway.Http.{header_get, Request}
use toska_mesh.Gateway.ClientIp.{client_ip_address}
use toska_mesh.Gateway.RateLimiter.{RateLimiter, new_rate_limiter, allow}
use toska_mesh.Gateway.RateLimiter
use toska_mesh.Gateway.Cors
use toska_mesh.Gateway.Cors.{no_content, serve_next, cors}
use toska_mesh.Gateway.Jwt
use toska_mesh.Gateway.Jwt.{Crypto, unauthorized, jwt_auth, skip_paths}
use toska_mesh.Gateway.Proxy.{Proxy, new_proxy, Attempt, Reply, serve_http}
use toska_mesh.Gateway.Config.{RateLimitConfig, GatewayConfig}

-- The handlers of the mux.
pub data Target : Type 0 where
  to_health to_dashboard to_proxy by_mux : Target

-- What the gateway takes from Go's library.
pub record Library : Type 0 where
  pub net : Net
  pub crypto : Crypto
  pub mux : String → String → String → Target

-- The gateway between two requests: the rate limiter, if it is enabled, and the proxy.
pub record Gateway : Type 0 where
  pub limiter : Option RateLimiter
  pub proxy : Proxy

-- What a request meets: the clock of the rate limiter, the Unix time, and the attempts of the proxy.
pub record Arrival : Type 0 where
  pub limiter_time : ℕ
  pub unix_time : ℤ
  pub attempts : ℕ → Attempt

pub data Body : Type 0 where
  preflight : Body
  too_many_requests : Body
  rejected : String → Body
  handed : Target → Body
  proxied : Reply → Body

-- The limiter that `run` builds.
unfoldable pub limiter_of : RateLimitConfig → Option RateLimiter
limiter_of cfg =
    if cfg.enabled then some (new_rate_limiter cfg.permit_limit cfg.window_seconds) else none

-- the gateway that `run` starts
unfoldable pub new_gateway : GatewayConfig → Gateway
unfolding limiter_of
new_gateway cfg = record { limiter = limiter_of cfg.rate_limit; proxy = new_proxy cfg.resilience }

-- the mux with its handlers
unfoldable pub serve_mux : Library → GatewayConfig → Arrival → Request → Gateway → Body × Gateway
serve_mux lib cfg env r g = elim (lib.mux cfg.routing.route_prefix r.method r.path) [
  | to_health ↦ (handed to_health, g)
  | to_dashboard ↦ (handed to_dashboard, g)
  | by_mux ↦ (handed by_mux, g)
  | to_proxy ↦
      let (reply, p) = serve_http env.attempts r g.proxy in (proxied reply, record g { proxy = p })
]

-- behind the authentication
unfoldable pub authenticated :
    Library → GatewayConfig → Arrival → Request → Gateway → Body × Gateway
authenticated lib cfg env r g =
    elim (jwt_auth lib.crypto cfg.jwt skip_paths env.unix_time r.path
      (header_get r.header "Authorization")) [
        | Jwt.unauthorized message ↦ (rejected message, g)
        | Jwt.serve_next ↦ serve_mux lib cfg env r g
      ]

-- `Middleware`, behind the limiter
unfoldable pub limited : Library → GatewayConfig → Arrival → Request → Gateway → Body × Gateway
limited lib cfg env r g = elim g.limiter [
  | none ↦ authenticated lib cfg env r g
  | some rl ↦
      let (rl', passes) = RateLimiter.allow rl (client_ip_address lib.net r) env.limiter_time in
      let g' = record g { limiter = some rl' } in
      if passes then authenticated lib cfg env r g' else (too_many_requests, g')
]

-- The whole chain: the headers that the middleware sets, the body, and the gateway afterwards.
unfoldable pub handle :
    Library → GatewayConfig → Arrival → Request → Gateway → Dict String × Body × Gateway
handle lib cfg env r g = elim (cors cfg.cors r.method (header_get r.header "Origin") []) [
  | Cors.no_content h ↦ (h, preflight, g)
  | Cors.serve_next h ↦ let (body, g') = limited lib cfg env r g in (h, body, g')
]
