-- ===== src/Gateway/Proxy/Tests.antt =====
-- The proxy at concrete inputs.
use toska_mesh.Prelude.{ℕ, zero, suc, ◌<◌, ◌≡◌, refl, true, false, some, [], ◌∷◌, arith}
use toska_mesh.Prelude.Int.{ℤ, pos, add64}
use toska_mesh.Prelude.Dict.{lookup, insert}
use toska_mesh.Prelude.Text.{to_lower, strip_prefix, has_prefix, ends_with, cut_before}
use toska_mesh.Prelude.Result.{ok}
use toska_mesh.HealthMonitor.Breaker.{
  open_circuit, CircuitBreaker, new_circuit_breaker, allow, record_success, record_failure,
}
use toska_mesh.Gateway.Routes.{
  Backend, RouteTable, lookup_backend, normalize_prefix, table_prefix, split_service,
  parse_service_from_path,
}
use toska_mesh.Gateway.Proxy.{
  BufferedResponse, get, Proxy, Attempt, out_request, buffer, forward, settle, attempt, response,
  upstream_failed, next_backend, passed_on, next_request, limited_request, serve_http,
}
use toska_mesh.Gateway.Proxy.Protect.{IsSound, IsBlocked, SameBreakers, serve_http-blocked}
use toska_mesh.Gateway.Proxy.Bodies.{dispatched, sent, trace, bodies}
use toska_mesh.Gateway.Proxy.Recovers.{IsClosed, Fails, Answers, request_at, serve_http-Answers}
use toska_mesh.Gateway.Http.{
  empty_body, open_body, closed_body, close_body, max_bytes_reader, Request,
}

abbrev pub backend : Backend
backend = record { service_id = "orders-1"; address = "http://10.0.0.1:8080" }

abbrev table : RouteTable
table = record {
  registry = record { registration_times = [] };
  config = record { route_prefix = "/api"; refresh_interval = pos 30 };
  routes = ("orders", record { service_name = "Orders"; backends = backend ∷ [] }) ∷ [];
}

-- a round whose upstream answers with this status
abbrev pub round : ℤ → Attempt
round status = record {
  table = table;
  random = λ n. 0;
  allow_time = 50;
  failure_time = 51;
  parse_url = λ url. ok ("http", "10.0.0.1:8080");
  round_trip = λ request. ok (record { status_code = status; header = []; read = λ limit. ok [] });
  body_left = close_body;
}

-- an upstream that fails first
abbrev pub env : ℕ → Attempt
env zero = round (pos 502)
env (suc i) = round (pos 200)

abbrev pub request : Request
request = record {
  method = "GET";
  path = "/api/orders/7";
  raw_query = "";
  header = [];
  remote_addr = "10.0.0.5:4000";
  body = empty_body;
}

-- the same path with a body
abbrev post_request : Request
post_request = record request { method = "POST"; body = open_body (1 ∷ 2 ∷ []) true }

abbrev pub start : Proxy
start = record {
  resilience = record {
    retry_count = pos 3;
    breaker_failure_threshold = pos 3;
    breaker_break_duration = pos 100;
  };
  breakers = record { threshold = pos 3; duration = pos 100; breakers = [] };
}

abbrev pub tripped : CircuitBreaker
tripped = record {
  state = open_circuit;
  failure_count = pos 3;
  failure_threshold = pos 3;
  recovery_threshold = pos 1;
  recovery_count = pos 0;
  break_duration = pos 100;
  opened_at = 30;
  half_open_used = false;
}

abbrev pub tripped_proxy : Proxy
tripped_proxy = record start {
  breakers = record {
    threshold = pos 3;
    duration = pos 100;
    breakers = ("orders-1", tripped) ∷ [];
  };
}

parsed : parse_service_from_path (table_prefix (env 0).table) request.path ≡ some ("orders", "/7")
unfolding parse_service_from_path split_service table_prefix normalize_prefix strip_prefix
    cut_before has_prefix ends_with
parsed = refl

found : (i : ℕ) → lookup_backend (env i).random (env i).table "orders" ≡ some backend
unfolding lookup_backend lookup to_lower
found zero = refl
found (suc i) = refl

-- The first round fails with 502, and the second one is sent without the body.
two_bodies :
    bodies (trace env (limited_request post_request) "orders" "/7" 4 0 backend start.breakers)
    ≡ open_body (1 ∷ 2 ∷ []) true ∷ closed_body ∷ []
unfolding trace attempt next_backend lookup_backend lookup to_lower get new_circuit_breaker allow
    settle forward buffer next_request passed_on sent dispatched out_request limited_request
    max_bytes_reader close_body record_failure record_success insert add64
two_bodies = refl

start-IsSound : IsSound start.breakers
unfolding get lookup new_circuit_breaker
start-IsSound id = (ground arith, ground arith)

below : (i : ℕ) → (env i).allow_time < 130
below zero = omega arith
below (suc i) = omega arith

pub tripped_proxy-IsBlocked : IsBlocked env "orders" backend tripped_proxy.breakers
unfolding get lookup
tripped_proxy-IsBlocked = record { looked_up = found; is_tripped = refl; in_break = λ i. below i }

serve_http-blocked_example :
    ((serve_http env request tripped_proxy).0 ≡ upstream_failed (pos 503))
    × SameBreakers tripped_proxy.breakers (serve_http env request tripped_proxy).1.breakers
serve_http-blocked_example =
    serve_http-blocked env request tripped_proxy "orders" "/7" backend 3 parsed
      tripped_proxy-IsBlocked refl (omega arith)

-- Round 0 fails, and round 1 answers.
abbrev answer : BufferedResponse
answer = record { status_code = pos 200; header = []; body = [] }

fails :
    (i : ℕ)
    → i < 1
    → Fails (env i) (request_at env (limited_request request) backend i) backend "/7"
unfolding forward buffer
fails zero h br e = ground arith
fails (suc i) h br e = absurd (omega arith)

answers : Answers (env 1) (request_at env (limited_request request) backend 1) backend "/7" answer
unfolding forward buffer
answers = (refl, refl)

start-IsClosed : IsClosed (get start.breakers backend.service_id) 0 3
unfolding get lookup new_circuit_breaker
start-IsClosed = ground arith

serve_http-Answers_example :
    ((serve_http env request start).0 ≡ response answer)
    × IsClosed (get (serve_http env request start).1.breakers backend.service_id) 0 3
serve_http-Answers_example =
    serve_http-Answers env request start "orders" "/7" backend answer 3 1 0 3 parsed found refl
      (omega arith) (omega arith) start-IsClosed (omega arith) fails answers
