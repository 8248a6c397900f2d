-- ===== src/Gateway/Proxy.antt =====
-- internal/gateway/proxy.go and config.go: the reverse proxy, with its retries and circuit breakers.
-- What one attempt meets outside is an argument: the route table at that time, the clock, the
-- answer of the upstream, and what the transport leaves of the request's body. The delay before a
-- retry is the time that passes between two attempts; its floating-point computation is left out.
pub mod Retry
pub mod Protect
pub mod Interleave
pub mod Recovers
pub mod Bodies
mod Tests
use toska_mesh.Prelude.{
  ℕ, zero, suc, ◌*◌, ◌^◌, String, Bool, false, Option, none, some, List, [], ◌==◌, if◌then◌else◌,
}
use toska_mesh.Prelude.Int.{ℤ, pos, negsuc, ltb_ℤ, add64}
use toska_mesh.Prelude.Dict.{Dict, lookup, insert, delete}
use toska_mesh.Prelude.Result.{Result, ok, err}
use toska_mesh.HealthMonitor.Breaker.{
  CircuitBreaker, new_circuit_breaker, allow, record_success, record_failure,
}
use toska_mesh.Gateway.Http.{Header, RequestBody, max_bytes_reader, Request}
use toska_mesh.Gateway.Routes.{
  Backend, RouteTable, lookup_backend, table_prefix, parse_service_from_path,
}

-- `ResilienceConfig`, without the parameters of the delay
pub record ResilienceConfig : Type 0 where
  pub retry_count : ℤ
  pub breaker_failure_threshold : ℤ
  pub breaker_break_duration : ℤ

pub record BufferedResponse : Type 0 where
  pub status_code : ℤ
  pub header : Header
  pub body : List ℕ

-- `breakerMap`
pub record BreakerMap : Type 0 where
  pub threshold : ℤ
  pub duration : ℤ
  pub breakers : Dict CircuitBreaker

-- `newBreakerMap`
unfoldable pub new_breaker_map : ℤ → ℤ → BreakerMap
new_breaker_map threshold duration = record {
  threshold = threshold;
  duration = duration;
  breakers = [];
}

-- `breakerMap.get`: the breaker of an ID, a new one if there is none. The map holds pointers, so the
-- calls on that breaker change the map's entry: `put`.
unfoldable pub get : BreakerMap → String → CircuitBreaker
get bm id = elim (lookup id bm.breakers) [
  | some cb ↦ cb
  | none ↦ new_circuit_breaker bm.threshold bm.duration
]

abbrev pub put : BreakerMap → String → CircuitBreaker → BreakerMap
put bm id cb = record bm { breakers = insert id cb bm.breakers }

pub record Proxy : Type 0 where
  pub resilience : ResilienceConfig
  pub breakers : BreakerMap

-- `NewProxy`
unfoldable pub new_proxy : ResilienceConfig → Proxy
unfolding new_breaker_map
new_proxy r = record {
  resilience = r;
  breakers = new_breaker_map r.breaker_failure_threshold r.breaker_break_duration;
}

-- The request that goes upstream.
pub record OutRequest : Type 0 where
  pub method : String
  pub scheme : String
  pub host : String
  pub path : String
  pub raw_query : String
  pub header : Header
  pub body : RequestBody

-- `*http.Response`; `read n` is `io.ReadAll` of the first `n` bytes of the body.
pub record Upstream : Type 0 where
  pub status_code : ℤ
  pub header : Header
  pub read : ℕ → Result (List ℕ)

-- What one attempt meets. `body_left` is what `RoundTrip` leaves of the body that it is given.
pub record Attempt : Type 0 where
  pub table : RouteTable
  pub random : ℕ → ℕ
  pub allow_time : ℕ
  pub failure_time : ℕ
  pub parse_url : String → Result (String × String)
  pub round_trip : OutRequest → Result Upstream
  pub body_left : RequestBody → RequestBody

abbrev pub max_response_body : ℕ
max_response_body = 10 * 2 ^ 20

-- the request that `forward` builds; the header `Connection` is dropped, and `Clone` shares the body
unfoldable pub out_request : Request → String × String → String → OutRequest
out_request r (scheme, host) remainder = record {
  method = r.method;
  scheme = scheme;
  host = host;
  path = remainder;
  raw_query = r.raw_query;
  header = delete "Connection" r.header;
  body = r.body;
}

-- the end of `forward`, on the answer of `RoundTrip`
unfoldable pub buffer : Result Upstream → Result BufferedResponse
buffer (err e) = err e
buffer (ok resp) = elim (resp.read max_response_body) [
  | err e ↦ err e
  | ok body ↦ ok (record { status_code = resp.status_code; header = resp.header; body = body })
]

-- `forward`
unfoldable pub forward : Attempt → Request → Backend → String → Result BufferedResponse
forward env r backend remainder = elim (env.parse_url backend.address) [
  | err e ↦ err e
  | ok url ↦ buffer (env.round_trip (out_request r url remainder))
]

-- How an attempt ends: a response below 500, a refusal of the breaker, a response from 500 on, an error.
pub data Outcome : Type 0 where
  answered : BufferedResponse → Outcome
  refused : Outcome
  upstream_error : BufferedResponse → Outcome
  failed : Outcome

-- the part of an attempt behind the breaker, on what `forward` returns
unfoldable pub settle :
    Attempt → String → CircuitBreaker → BreakerMap → Result BufferedResponse → Outcome × BreakerMap
settle env id cb bm (err e) = (failed, put bm id (record_failure cb env.failure_time))
settle env id cb bm (ok br) =
    if ltb_ℤ br.status_code (pos 500)
    then (answered br, put bm id (record_success cb))
    else (upstream_error br, put bm id (record_failure cb env.failure_time))

-- one round of the loop of `ServeHTTP`, for the backend that was looked up
unfoldable pub attempt : Attempt → Request → Backend → String → BreakerMap → Outcome × BreakerMap
attempt env r backend remainder bm =
    let id = backend.service_id in
    let (cb, allowed) = allow (get bm id) env.allow_time in
    if allowed
    then settle env id cb bm (forward env r backend remainder)
    else (refused, put bm id cb)

-- `lastStatus` and `lastResp`
pub record Last : Type 0 where
  pub status : ℤ
  pub response : Option BufferedResponse

-- What the client receives.
pub data Reply : Type 0 where
  not_found : Reply
  service_not_found : String → Reply
  response : BufferedResponse → Reply
  upstream_failed : ℤ → Reply

abbrev is_zero : ℤ → Bool
is_zero (pos n) = n == 0
is_zero (negsuc n) = false

-- what `ServeHTTP` writes behind the loop
unfoldable pub finish : Last → Reply
finish last = elim last.response [
  | some br ↦ response br
  | none ↦ upstream_failed (if is_zero last.status then pos 502 else last.status)
]

-- what a round leaves in `lastStatus` and `lastResp`
unfoldable pub note : Last → Outcome → Last
note last (answered br) = last
note last refused = record last { status = pos 503 }
note last (upstream_error br) = record { status = br.status_code; response = some br }
note last failed = last

-- `if b := p.routes.Lookup(serviceName); b != nil { backend = b }`, from the second round on
unfoldable pub next_backend : Attempt → String → ℕ → Backend → Backend
next_backend env name zero backend = backend
next_backend env name (suc i) backend = elim (lookup_backend env.random env.table name) [
  | none ↦ backend
  | some b ↦ b
]

-- the end of a round: the handler returns with an answer, else the loop goes on
unfoldable pub leave : Outcome → BreakerMap → Reply × BreakerMap → Reply × BreakerMap
leave (answered br) bm rest = (response br, bm)
leave refused bm rest = rest
leave (upstream_error br) bm rest = rest
leave failed bm rest = rest

-- the request behind a round that the breaker let through: `RoundTrip` has had its body, unless the
-- backend's address is no URL
unfoldable pub passed_on : Attempt → Request → Backend → Request
passed_on env r backend = elim (env.parse_url backend.address) [
  | err e ↦ r
  | ok url ↦ record r { body = env.body_left r.body }
]

-- the request that the next round finds, whose body is the same object
unfoldable pub next_request : Attempt → Request → Backend → Outcome → Request
next_request env r backend refused = r
next_request env r backend (answered br) = passed_on env r backend
next_request env r backend (upstream_error br) = passed_on env r backend
next_request env r backend failed = passed_on env r backend

-- the rounds from number `i` on, of which `n` are left
unfoldable pub attempts :
    (ℕ → Attempt)
    → Request
    → String
    → String
    → ℕ
    → ℕ
    → Backend
    → Last
    → BreakerMap
    → Reply × BreakerMap
attempts env r name remainder zero i backend last bm = (finish last, bm)
attempts env r name remainder (suc n) i backend last bm =
    let here = next_backend (env i) name i backend in
    let (outcome, bm') = attempt (env i) r here remainder bm in
    let r' = next_request (env i) r here outcome in
    let rest = attempts env r' name remainder n (suc i) here (note last outcome) bm' in
    leave outcome bm' rest

-- the number of rounds of `for attempt := range n`
abbrev pub rounds : ℤ → ℕ
rounds (pos n) = n
rounds (negsuc n) = 0

abbrev pub max_request_body : ℕ
max_request_body = 10 * 2 ^ 20

-- `r.Body = http.MaxBytesReader(w, r.Body, maxRequestBody)`
unfoldable pub limited_request : Request → Request
limited_request r = record r { body = max_bytes_reader max_request_body r.body }

-- `ServeHTTP`; `env 0` also answers the first lookup
unfoldable pub serve_http : (ℕ → Attempt) → Request → Proxy → Reply × Proxy
serve_http env r p = elim (parse_service_from_path (table_prefix (env 0).table) r.path) [
  | none ↦ (not_found, p)
  | some (name, remainder) ↦ elim (lookup_backend (env 0).random (env 0).table name) [
    | none ↦ (service_not_found name, p)
    | some backend ↦
        let n = rounds (add64 p.resilience.retry_count (pos 1)) in
        let (reply, bm) =
          attempts env (limited_request r) name remainder n 0 backend
            (record { status = pos 0; response = none }) p.breakers in
        (reply, record p { breakers = bm })
  ]
]
