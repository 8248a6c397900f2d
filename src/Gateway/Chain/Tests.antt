-- ===== src/Gateway/Chain/Tests.antt =====
-- The chain, the configuration and the client's address at concrete inputs.
use Prim.Native.Nat.{min}
use toska_mesh.Prelude.{
  ℕ, suc, ◌<◌, String, ◌≡◌, refl, ◌≢◌, true, false, none, some, List, [], ◌∷◌, arith, str_eq,
  eq_iff, if◌then◌else◌, length, All,
}
use toska_mesh.Prelude.Int.{pos}
use toska_mesh.Prelude.Dict.{lookup}
use toska_mesh.Prelude.Net.{Net}
use toska_mesh.Prelude.Text.{strip_prefix, has_prefix, cut_before}
use toska_mesh.Prelude.Result.{err}
use toska_mesh.Gateway.Http.{header_get, empty_body, close_body, Request}
use toska_mesh.Gateway.ClientIp.{remote_host, is_trusted, client_ip_address}
use toska_mesh.Gateway.RateLimiter.{Bucket, RateLimiter, allow}
use toska_mesh.Gateway.Cors.{cors}
use toska_mesh.Gateway.Jwt.{Crypto, jwt_auth}
use toska_mesh.Gateway.Routes.{RouteTable}
use toska_mesh.Gateway.Proxy.{Attempt, Reply}
use toska_mesh.Gateway.Config.{GatewayConfig}
use toska_mesh.Gateway.Chain.{
  to_health, to_proxy, Library, Gateway, Arrival, proxied, serve_mux, authenticated, limited,
  handle,
}
use toska_mesh.Gateway.Chain.Guard.{Passes, IsAdmitted, handle-proxied}
use toska_mesh.Gateway.Chain.Limits.{count_past, IsFrom, count_past-limit}

-- one variable is set
abbrev pub getenv : String → String
getenv name = if str_eq name "GATEWAY_RATE_LIMIT_PERMITS" then "2" else ""

abbrev pub net : Net
net = record {
  parse_ip = λ s. some (record { is_loopback = str_eq s "127.0.0.1"; is_unspecified = false });
  split_host = λ s. elim (cut_before b':' s) [ none ↦ none | some (host, port) ↦ some host ];
}

abbrev pub plain : Crypto
plain = record { sign = λ secret text. secret; decode = λ text. none; unmarshal = λ text. none }

-- every path but that of the health check goes to the proxy
abbrev pub lib : Library
lib = record {
  net = net;
  crypto = plain;
  mux = λ prefix method path. if str_eq path "/health" then to_health else to_proxy;
}

abbrev pub request : Request
request = record {
  method = "GET";
  path = "/orders/7";
  raw_query = "";
  header = ("X-Forwarded-For", "1.2.3.4" ∷ []) ∷ [];
  remote_addr = "10.0.0.5:4000";
  body = empty_body;
}

abbrev forged : Request
forged = record request { header = ("X-Forwarded-For", "5.6.7.8" ∷ []) ∷ [] }

not_trusted : is_trusted net request ≡ false
unfolding is_trusted remote_host cut_before
not_trusted = refl

abbrev pub table : RouteTable
table = record {
  registry = record { registration_times = [] };
  config = record { route_prefix = "/api/"; refresh_interval = pos 30 };
  routes = [];
}

abbrev pub attempt_at : ℕ → Attempt
attempt_at i = record {
  table = table;
  random = λ n. 0;
  allow_time = 0;
  failure_time = 0;
  parse_url = λ url. err "no";
  round_trip = λ request. err "no";
  body_left = close_body;
}

abbrev pub arrival : ℕ → Arrival
arrival t = record { limiter_time = t; unix_time = pos 0; attempts = attempt_at }

-- no secret is configured
abbrev cfg : GatewayConfig
cfg = record {
  port = "5000";
  consul_addr = "";
  rabbit_url = "";
  routing = record { route_prefix = "/api/"; refresh_interval = pos 30 };
  rate_limit = record { enabled = true; permit_limit = pos 2; window_seconds = pos 60 };
  cors = record {
    allow_any_origin = true;
    allowed_origins = [];
    allowed_headers = [];
    allowed_methods = [];
  };
  jwt = record {
    secret_key = "";
    issuer = "a";
    audience = "b";
    validate_issuer = true;
    validate_audience = true;
  };
  resilience = record {
    retry_count = pos 3;
    breaker_failure_threshold = pos 3;
    breaker_break_duration = pos 100;
  };
  dashboard = record {
    prometheus_base_url = "";
    tracing_base_url = "";
    discovery_base_url = "";
    health_monitor_base_url = "";
    service_auth_secret = "";
  };
}

abbrev limiter : RateLimiter
limiter = record { buckets = []; limit = pos 2; window = pos 60 }

abbrev gateway : Gateway
gateway = record {
  limiter = some limiter;
  proxy = record {
    resilience = cfg.resilience;
    breakers = record { threshold = pos 3; duration = pos 100; breakers = [] };
  };
}

handle-proxied_example :
    ((reply : Reply)
      → (handle lib cfg (arrival 10) request gateway).1 ≡ proxied reply
      → (request.method ≢ "OPTIONS")
        × Passes lib (arrival 10) request gateway
        × IsAdmitted lib cfg (arrival 10) request)
    × (((reply : Reply) → (handle lib cfg (arrival 10) request gateway).1 ≢ proxied reply)
        → (handle lib cfg (arrival 10) request gateway).2.proxy ≡ gateway.proxy)
handle-proxied_example = handle-proxied lib cfg (arrival 10) request gateway

reaches_proxy : (reply : Reply) × ((handle lib cfg (arrival 10) request gateway).1 ≡ proxied reply)
unfolding handle limited authenticated serve_mux cors jwt_auth client_ip_address header_get lookup
    has_prefix strip_prefix is_trusted remote_host cut_before allow
reaches_proxy = (_, refl)

abbrev rest : List (Arrival × Request)
rest = (arrival 20, forged) ∷ (arrival 30, request) ∷ []

no_bucket :
    (bucket : Bucket) → lookup "10.0.0.5" limiter.buckets ≡ some bucket → bucket.reset_at < 10
unfolding lookup
no_bucket bucket h = cc

not_options : request.method ≢ "OPTIONS"
not_options e = let bad : false ≡ true = (eq_iff request.method "OPTIONS").1 e in cc

one_client : All (IsFrom lib "10.0.0.5") ((arrival 10, request) ∷ rest)
unfolding client_ip_address is_trusted remote_host cut_before
one_client = ((not_options, refl), ((not_options, refl), ((not_options, refl), tt)))

count_past-limit_example :
    count_past lib cfg ((arrival 10, request) ∷ rest) gateway ≡ min (suc (length rest)) 2
count_past-limit_example =
    count_past-limit lib cfg gateway "10.0.0.5" limiter (arrival 10) request rest 2 refl refl
      (omega arith) (omega arith) no_bucket one_client (ground arith)
