-- ===== src/Gateway/Config.antt =====
-- internal/gateway/config.go and `loadConfig` of cmd/gateway/main.go: the configuration, its defaults and
-- the environment variables. `os.Getenv` is an argument. The parameters of the delay between retries
-- are left out.
use toska_mesh.Prelude.{
  ℕ, suc, ◌*◌, ◌^◌, String, ◌≢◌, Bool, true, false, none, some, List, [], ◌∷◌, arith, str_eq,
  eq_iff, if◌then◌else◌,
}
use toska_mesh.Prelude.Int.{ℤ, pos, ◌≤ℤ◌, ◌<ℤ◌, ltb_ℤ, seconds}
use toska_mesh.Prelude.Text.{atoi, split}
use toska_mesh.Prelude.Env.{env_or, positive_or, nonneg_or}
use toska_mesh.Prelude.Trim.{trim_space}
use toska_mesh.Gateway.Cors.{CorsConfig}
use toska_mesh.Gateway.Jwt.{JwtConfig}
use toska_mesh.Gateway.Routes.{RoutingConfig}
use toska_mesh.Gateway.Proxy.{ResilienceConfig}
use toska_mesh.Gateway.Dashboard.{DashboardConfig}

-- `RateLimitConfig`
pub record RateLimitConfig : Type 0 where
  pub enabled : Bool
  pub permit_limit : ℤ
  pub window_seconds : ℤ

-- `Config`
pub record GatewayConfig : Type 0 where
  pub port : String
  pub consul_addr : String
  pub rabbit_url : String
  pub routing : RoutingConfig
  pub rate_limit : RateLimitConfig
  pub cors : CorsConfig
  pub jwt : JwtConfig
  pub resilience : ResilienceConfig
  pub dashboard : DashboardConfig

-- `DefaultConfig`
unfoldable pub default_config : GatewayConfig
default_config = record {
  port = "5000";
  consul_addr = "http://localhost:8500";
  rabbit_url = "";
  routing = record { route_prefix = "/api/"; refresh_interval = pos (30 * 10 ^ 9) };
  rate_limit = record { enabled = true; permit_limit = pos 100; window_seconds = pos 60 };
  cors = record {
    allow_any_origin = true;
    allowed_origins = [];
    allowed_headers = "Authorization" ∷ "Content-Type" ∷ [];
    allowed_methods = "GET" ∷ "POST" ∷ "PUT" ∷ "PATCH" ∷ "DELETE" ∷ "OPTIONS" ∷ [];
  };
  jwt = record {
    secret_key = "";
    issuer = "";
    audience = "";
    validate_issuer = true;
    validate_audience = true;
  };
  resilience = record {
    retry_count = pos 3;
    breaker_failure_threshold = pos 3;
    breaker_break_duration = pos (20 * 10 ^ 9);
  };
  dashboard = record {
    prometheus_base_url = "http://localhost:9090";
    tracing_base_url = "http://localhost:5004";
    discovery_base_url = "http://localhost:5010";
    health_monitor_base_url = "http://localhost:5005";
    service_auth_secret = "";
  };
}

unfoldable pub load_routing : (String → String) → RoutingConfig → RoutingConfig
load_routing getenv cfg = record {
  route_prefix = env_or (getenv "GATEWAY_ROUTE_PREFIX") cfg.route_prefix;
  refresh_interval = elim (atoi (getenv "GATEWAY_ROUTE_REFRESH_SECONDS")) [
    | none ↦ cfg.refresh_interval
    | some v ↦ if ltb_ℤ (pos 0) v then seconds v else cfg.refresh_interval
  ];
}

unfoldable pub load_rate_limit : (String → String) → RateLimitConfig → RateLimitConfig
load_rate_limit getenv cfg = record {
  enabled = if str_eq (getenv "GATEWAY_RATE_LIMIT_ENABLED") "false" then false else cfg.enabled;
  permit_limit = positive_or (getenv "GATEWAY_RATE_LIMIT_PERMITS") cfg.permit_limit;
  window_seconds = positive_or (getenv "GATEWAY_RATE_LIMIT_WINDOW_SECONDS") cfg.window_seconds;
}

-- the parts that are not empty, trimmed
trimmed : List String → List String
trimmed [] = []
trimmed (p ∷ rest) =
    let later = trimmed rest in if str_eq (trim_space p) "" then later else trim_space p ∷ later

-- `splitComma`
unfoldable pub split_comma : String → List String
unfolding trimmed
split_comma s = trimmed (split b',' s)

unfoldable pub load_cors : (String → String) → CorsConfig → CorsConfig
load_cors getenv cfg =
    let origins = getenv "GATEWAY_CORS_ALLOWED_ORIGINS" in
    record cfg {
      allow_any_origin =
          if str_eq (getenv "GATEWAY_CORS_ALLOW_ANY_ORIGIN") "false"
          then false
          else cfg.allow_any_origin;
      allowed_origins = if str_eq origins "" then cfg.allowed_origins else split_comma origins;
    }

unfoldable pub load_jwt : (String → String) → JwtConfig → JwtConfig
load_jwt getenv cfg = record cfg {
  secret_key = getenv "JWT_SECRET_KEY";
  issuer = env_or (getenv "JWT_ISSUER") "ToskaMesh.Gateway";
  audience = env_or (getenv "JWT_AUDIENCE") "ToskaMesh.Services";
}

unfoldable pub load_resilience : (String → String) → ResilienceConfig → ResilienceConfig
load_resilience getenv cfg = record cfg {
  retry_count = nonneg_or (getenv "GATEWAY_RETRY_COUNT") cfg.retry_count;
}

unfoldable pub load_dashboard : (String → String) → DashboardConfig → DashboardConfig
load_dashboard getenv cfg = record {
  prometheus_base_url = env_or (getenv "DASHBOARD_PROMETHEUS_URL") cfg.prometheus_base_url;
  tracing_base_url = env_or (getenv "DASHBOARD_TRACING_URL") cfg.tracing_base_url;
  discovery_base_url = env_or (getenv "DASHBOARD_DISCOVERY_URL") cfg.discovery_base_url;
  health_monitor_base_url =
      env_or (getenv "DASHBOARD_HEALTHMONITOR_URL") cfg.health_monitor_base_url;
  service_auth_secret = env_or (getenv "MESH_SERVICE_AUTH_SECRET") cfg.service_auth_secret;
}

-- `loadConfig`
unfoldable pub load_config : (String → String) → GatewayConfig
unfolding default_config
load_config getenv =
    let cfg = default_config in
    record {
      port = env_or (getenv "GATEWAY_PORT") cfg.port;
      consul_addr = env_or (getenv "CONSUL_ADDRESS") cfg.consul_addr;
      rabbit_url = cfg.rabbit_url;
      routing = load_routing getenv cfg.routing;
      rate_limit = load_rate_limit getenv cfg.rate_limit;
      cors = load_cors getenv cfg.cors;
      jwt = load_jwt getenv cfg.jwt;
      resilience = load_resilience getenv cfg.resilience;
      dashboard = load_dashboard getenv cfg.dashboard;
    }

-- What the gateway relies on in its configuration.
pub record IsUsable (cfg : GatewayConfig) : Type 0 where
  pub prefix_given : cfg.routing.route_prefix ≢ ""
  pub permits : pos 0 <ℤ cfg.rate_limit.permit_limit
  pub window : pos 0 <ℤ cfg.rate_limit.window_seconds
  pub retries : pos 0 ≤ℤ cfg.resilience.retry_count
  pub threshold : pos 0 <ℤ cfg.resilience.breaker_failure_threshold
  pub issuer_given : cfg.jwt.issuer ≢ ""
  pub audience_given : cfg.jwt.audience ≢ ""

positive_or-pos : (value : String) (n : ℕ) → pos 0 <ℤ positive_or value (pos (suc n))
unfolding positive_or
positive_or-pos value n = ground arith

nonneg_or-nonneg : (value : String) (n : ℕ) → pos 0 ≤ℤ nonneg_or value (pos n)
unfolding nonneg_or
nonneg_or-nonneg value n = ground arith

env_or-ne-empty : (value fallback : String) → fallback ≢ "" → env_or value fallback ≢ ""
unfolding env_or
env_or-ne-empty value fallback h = ground (arith, eq_iff value "")

-- Whatever the environment holds, the configuration that is loaded is usable: a route prefix, an issuer
-- and an audience are given, the limits of the rate limiter and the failure threshold of the breakers
-- are positive, and the retry count is not negative.
pub load_config-IsUsable : (getenv : String → String) → IsUsable (load_config getenv)
load_config-IsUsable getenv =
    unfold load_config load_routing load_rate_limit load_jwt load_resilience in
    record {
      prefix_given = env_or-ne-empty _ "/api/" (λ e. ground (arith, eq_iff "/api/" ""));
      permits = positive_or-pos _ 99;
      window = positive_or-pos _ 59;
      retries = nonneg_or-nonneg _ 3;
      threshold = omega arith;
      issuer_given =
          env_or-ne-empty _ "ToskaMesh.Gateway"
            (λ e. ground (arith, eq_iff "ToskaMesh.Gateway" ""));
      audience_given =
          env_or-ne-empty _ "ToskaMesh.Services"
            (λ e. ground (arith, eq_iff "ToskaMesh.Services" ""));
    }
