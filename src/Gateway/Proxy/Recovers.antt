-- ===== src/Gateway/Proxy/Recovers.antt =====
-- That a request gets through to an upstream which fails for a while.
use toska_mesh.Prelude.{
  ℕ, zero, suc, ◌+◌, ◌≤◌, ◌<◌, String, ◌≡◌, refl, sym, subst, true, false, none, some, arith,
  eq_refl,
}
use toska_mesh.Prelude.Int.{pos, ltb_ℤ, max_int64, add64}
use toska_mesh.Prelude.Result.{Result, ok, err}
use toska_mesh.HealthMonitor.Breaker.{closed, CircuitBreaker, allow, record_success, record_failure}
use toska_mesh.Gateway.Http.{Request}
use toska_mesh.Gateway.Routes.{Backend, lookup_backend, table_prefix, parse_service_from_path}
use toska_mesh.Gateway.Proxy.{
  BufferedResponse, BreakerMap, get, put, Proxy, Attempt, forward, answered, settle, attempt, Last,
  Reply, response, note, leave, passed_on, next_request, attempts, rounds, limited_request,
  serve_http,
}
use toska_mesh.Gateway.Proxy.Protect.{get-put, next_same}

-- The breaker is closed, with k failures counted out of t.
abbrev pub IsClosed : CircuitBreaker → ℕ → ℕ → Type 0
IsClosed cb k t =
    (cb.state ≡ closed)
    × (cb.failure_count ≡ pos k)
    × (cb.failure_threshold ≡ pos t)
    × (t ≤ max_int64)

-- The upstream fails: it gives no response, or one from 500 on.
abbrev pub Fails : Attempt → Request → Backend → String → Type 0
Fails env r backend remainder =
    (br : BufferedResponse)
    → forward env r backend remainder ≡ ok br
    → ltb_ℤ br.status_code (pos 500) ≡ false

-- The upstream answers with this response, which is below 500.
abbrev pub Answers : Attempt → Request → Backend → String → BufferedResponse → Type 0
Answers env r backend remainder br =
    (forward env r backend remainder ≡ ok br) × (ltb_ℤ br.status_code (pos 500) ≡ true)

-- What round `i` finds of the request, when each round before it hands the request on to this backend.
abbrev pub request_at : (ℕ → Attempt) → Request → Backend → ℕ → Request
request_at env r backend zero = r
request_at env r backend (suc i) = passed_on (env i) (request_at env r backend i) backend

get-put_self : (bm : BreakerMap) (id : String) (cb : CircuitBreaker) → get (put bm id cb) id ≡ cb
get-put_self bm id cb = rw (get-put, eq_refl) refl

settle-passed_on :
    (env : Attempt) (id : String) (cb : CircuitBreaker) (bm : BreakerMap) (r : Request)
    (backend : Backend) (answer : Result BufferedResponse)
    → next_request env r backend (settle env id cb bm answer).0 ≡ passed_on env r backend
unfolding settle next_request
settle-passed_on env id cb bm r backend (err e) = refl
settle-passed_on env id cb bm r backend (ok br) = ground arith

settle-Fails :
    (env : Attempt) (id : String) (cb : CircuitBreaker) (bm : BreakerMap)
    (answer : Result BufferedResponse) (rest : Reply × BreakerMap)
    → ((br : BufferedResponse) → answer ≡ ok br → ltb_ℤ br.status_code (pos 500) ≡ false)
    → (leave (settle env id cb bm answer).0 (settle env id cb bm answer).1 rest ≡ rest)
      × ((settle env id cb bm answer).1 ≡ put bm id (record_failure cb env.failure_time))
unfolding settle leave
settle-Fails env id cb bm (err e) rest f = (refl, refl)
settle-Fails env id cb bm (ok br) rest f = rw (f br refl) (refl, refl)

allow-closed : (cb : CircuitBreaker) (now : ℕ) → cb.state ≡ closed → allow cb now ≡ (cb, true)
unfolding allow
allow-closed cb now c = ground arith

-- A closed breaker lets the attempt through.
attempt-closed :
    (env : Attempt) (r : Request) (backend : Backend) (remainder : String) (bm : BreakerMap)
    → (get bm backend.service_id).state ≡ closed
    → attempt env r backend remainder bm
      ≡ settle env backend.service_id
          (get bm backend.service_id)
          bm
          (forward env r backend remainder)
unfolding attempt
attempt-closed env r backend remainder bm c =
    rw (allow-closed (get bm backend.service_id) env.allow_time c) refl

attempt-Fails :
    (env : Attempt) (r : Request) (backend : Backend) (remainder : String) (bm : BreakerMap)
    (rest : Reply × BreakerMap)
    → (get bm backend.service_id).state ≡ closed
    → Fails env r backend remainder
    → (leave (attempt env r backend remainder bm).0 (attempt env r backend remainder bm).1 rest
        ≡ rest)
      × ((attempt env r backend remainder bm).1
          ≡ put bm backend.service_id (record_failure (get bm backend.service_id) env.failure_time))
attempt-Fails env r backend remainder bm rest c f =
    rw (attempt-closed env r backend remainder bm c)
      (settle-Fails env backend.service_id _ bm (forward env r backend remainder) rest f)

attempt-passed_on :
    (env : Attempt) (r : Request) (backend : Backend) (remainder : String) (bm : BreakerMap)
    → (get bm backend.service_id).state ≡ closed
    → next_request env r backend (attempt env r backend remainder bm).0 ≡ passed_on env r backend
attempt-passed_on env r backend remainder bm c = rw (attempt-closed env r backend remainder bm c) (
    settle-passed_on env backend.service_id (get bm backend.service_id) bm r backend
      (forward env r backend remainder))

attempt-Answers :
    (env : Attempt) (r : Request) (backend : Backend) (remainder : String) (bm : BreakerMap)
    (br : BufferedResponse)
    → (get bm backend.service_id).state ≡ closed
    → Answers env r backend remainder br
    → attempt env r backend remainder bm
      ≡ (answered br, put bm backend.service_id (record_success (get bm backend.service_id)))
unfolding settle
attempt-Answers env r backend remainder bm br c (f, h) =
    rw (attempt-closed env r backend remainder bm c, f, settle, h) refl

record_failure-IsClosed :
    (cb : CircuitBreaker) (now k t : ℕ)
    → IsClosed cb k t
    → suc k < t
    → IsClosed (record_failure cb now) (suc k) t
unfolding record_failure add64
record_failure-IsClosed cb now k t c h = ground arith

record_success-IsClosed :
    (cb : CircuitBreaker) (k t : ℕ) → IsClosed cb k t → IsClosed (record_success cb) 0 t
unfolding record_success
record_success-IsClosed cb k t c = ground arith

attempts-Answers :
    (env : ℕ → Attempt) (r : Request) (name remainder : String) (backend : Backend)
    (br : BufferedResponse) (t l : ℕ)
    → ((i : ℕ) → lookup_backend (env i).random (env i).table name ≡ some backend)
    → Answers (env l) (request_at env r backend l) backend remainder br
    → (n j i k : ℕ) (last : Last) (bm : BreakerMap) → j < n
    → IsClosed (get bm backend.service_id) k t
    → k + j < t
    → ((m : ℕ) → i ≤ m → m < l → Fails (env m) (request_at env r backend m) backend remainder)
    → l ≡ i + j
    → ((attempts env (request_at env r backend i) name remainder n i backend last bm).0
        ≡ response br)
      × IsClosed
          (get
            (attempts env (request_at env r backend i) name remainder n i backend last bm).1
            backend.service_id)
          0
          t
unfolding attempts leave
attempts-Answers env r name remainder backend br t l found a zero j i k last bm h c b f e =
    absurd (omega arith)
attempts-Answers env r name remainder backend br t l found a (suc n) zero i k last bm h c b f e =
    let id = backend.service_id in
    let here = next_same env name i backend (found i) in
    let now : l ≡ i = omega arith in
    let r' = request_at env r backend i in
    let a' = subst (λ m. Answers (env m) (request_at env r backend m) backend remainder br) now a in
    let outcome = attempt-Answers (env i) r' backend remainder bm br c.0 a' in
    let closes = record_success-IsClosed (get bm id) k t c in
    rw (here, outcome)
      (
        refl,
        subst (λ cb. IsClosed cb 0 t) (sym (get-put_self bm id (record_success (get bm id))))
            closes,
      )
attempts-Answers env r name remainder backend br t l found a (suc n) (suc j) i k last bm h c b f e =
    let id = backend.service_id in
    let here = next_same env name i backend (found i) in
    let r' = request_at env r backend i in
    let o = (attempt (env i) r' backend remainder bm).0 in
    let failing = f i (omega arith) (omega arith) in
    let passed = attempt-passed_on (env i) r' backend remainder bm c.0 in
    let (left, moved) =
      attempt-Fails (env i) r' backend remainder bm
        (attempts env (request_at env r backend (suc i)) name remainder n (suc i) backend
          (note last o) (attempt (env i) r' backend remainder bm).1)
        c.0 failing in
    let c' : IsClosed (get (attempt (env i) r' backend remainder bm).1 id) (suc k) t =
      rw (moved, get-put_self)
        (record_failure-IsClosed (get bm id) (env i).failure_time k t c (omega arith)) in
    rw (here, passed, left)
      (attempts-Answers env r name remainder backend br t l found a n j (suc i) (suc k)
        (note last o) _ (omega arith) c' (omega arith) (λ m p. f m (omega arith)) (omega arith))

-- The gateway rides out the failures of a service's only backend. If the upstream fails in the rounds
-- before round `j`, with a response from 500 on or with none, and answers below 500 in round `j` (each
-- round sends what the rounds before it left of the request's body), then the client receives that answer, and the breaker is closed and has no failure counted. The
-- breaker has to be closed at the start, with fewer failures left to its threshold than it takes:
-- k counted ones and the j of this request are below it; and the retries have to reach the round.
pub serve_http-Answers :
    (env : ℕ → Attempt) (r : Request) (p : Proxy) (name remainder : String) (backend : Backend)
    (br : BufferedResponse) (n j k t : ℕ)
    → parse_service_from_path (table_prefix (env 0).table) r.path ≡ some (name, remainder)
    → ((i : ℕ) → lookup_backend (env i).random (env i).table name ≡ some backend)
    → p.resilience.retry_count ≡ pos n
    → n < max_int64
    → j ≤ n
    → IsClosed (get p.breakers backend.service_id) k t
    → k + j < t
    → ((i : ℕ)
        → i < j
        → Fails (env i) (request_at env (limited_request r) backend i) backend remainder)
    → Answers (env j) (request_at env (limited_request r) backend j) backend remainder br
    → ((serve_http env r p).0 ≡ response br)
      × IsClosed (get (serve_http env r p).1.breakers backend.service_id) 0 t
unfolding serve_http add64
serve_http-Answers env r p name remainder backend br n j k t parsed found count bound h c b f a =
    let start : Last = record { status = pos 0; response = none } in
    let left : rounds (add64 p.resilience.retry_count (pos 1)) ≡ suc n = ground arith in
    rw (parsed, found 0, left, serve_http)
      (attempts-Answers env (limited_request r) name remainder backend br t j found a (suc n) j 0 k
        start p.breakers (omega arith) c b (λ m q. f m) (omega arith))
