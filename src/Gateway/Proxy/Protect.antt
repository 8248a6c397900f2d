-- ===== src/Gateway/Proxy/Protect.antt =====
-- How the breakers guard the upstreams.
use toska_mesh.Prelude.{
  ℕ, zero, suc, ◌<◌, String, ◌≡◌, refl, ap, ◌∙◌, inl, inr, none, some, List, [], ◌∷◌, arith, str_eq,
  eq_iff, ◌==◌, if◌then◌else◌, Bool-cases, Option-cases,
}
use toska_mesh.Prelude.Int.{pos, ◌<ℤ◌, ltb_ℤ, max_int64, add64, instant_after}
use toska_mesh.Prelude.Dict.{lookup-insert}
use toska_mesh.HealthMonitor.Breaker.{
  open_circuit, CircuitBreaker, allow, Call, call_allow, call_failure, call_success, step, run,
}
use toska_mesh.HealthMonitor.Breaker.Invariant.{IsValid, run-positive, run-IsValid}
use toska_mesh.Gateway.Routes.{Backend, lookup_backend, table_prefix, parse_service_from_path}
use toska_mesh.Gateway.Proxy.{
  BufferedResponse, BreakerMap, get, put, Proxy, Attempt, forward, Outcome, answered, refused,
  upstream_error, failed, settle, attempt, Last, Reply, upstream_failed, finish, note, next_backend,
  leave, next_request, attempts, rounds, limited_request, serve_http,
}
use toska_mesh.Prelude.Result.{Result, ok, err}
use toska_mesh.Gateway.Http.{Request}

-- The breaker of every ID in the map is valid, and so are the parameters of the new ones.
abbrev pub IsSound : BreakerMap → Type 0
IsSound bm = ((id : String) → IsValid (get bm id) × (pos 0 <ℤ (get bm id).failure_threshold))

pub get-put :
    (bm : BreakerMap) (id j : String) (cb : CircuitBreaker)
    → get (put bm id cb) j ≡ (if str_eq id j then cb else get bm j)
unfolding get
get-put bm id j cb = ground (arith, lookup-insert id j cb bm.breakers)

put-IsSound :
    (bm : BreakerMap) (id : String) (cb : CircuitBreaker)
    → IsSound bm
    → IsValid cb
    → pos 0 <ℤ cb.failure_threshold
    → IsSound (put bm id cb)
put-IsSound bm id cb s v t j = elim (Bool-cases (str_eq id j)) [
  | inl e ↦ rw (get-put bm id j cb, e) (v, t)
  | inr e ↦ rw (get-put bm id j cb, e) (s j)
]

settle-step :
    (env : Attempt) (id : String) (cb : CircuitBreaker) (bm : BreakerMap)
    (answer : Result BufferedResponse)
    → (cs : List Call) × ((settle env id cb bm answer).1 ≡ put bm id (run cb cs))
unfolding settle run step
settle-step env id cb bm (err e) = (call_failure env.failure_time ∷ [], refl)
settle-step env id cb bm (ok br) = elim (Bool-cases (ltb_ℤ br.status_code (pos 500))) [
  | inl e ↦ (call_success ∷ [], rw e refl)
  | inr e ↦ (call_failure env.failure_time ∷ [], rw e refl)
]

-- The breaker that an attempt leaves behind is some calls further.
pub attempt-step :
    (env : Attempt) (r : Request) (backend : Backend) (remainder : String) (bm : BreakerMap)
    → (cs : List Call) × ((attempt env r backend remainder bm).1
        ≡ put bm backend.service_id
            (run (get bm backend.service_id) (call_allow env.allow_time ∷ cs)))
unfolding attempt run step
attempt-step env r backend remainder bm =
    let id = backend.service_id in
    let (cb, allowed) = allow (get bm id) env.allow_time in
    elim (Bool-cases allowed) [
      | inl e ↦
          let (cs, same) = settle-step env id cb bm (forward env r backend remainder) in
          (cs, rw (e, attempt) same)
      | inr e ↦ ([], rw (e, attempt) refl)
    ]

attempt-IsSound :
    (env : Attempt) (r : Request) (backend : Backend) (remainder : String) (bm : BreakerMap)
    → IsSound bm
    → IsSound (attempt env r backend remainder bm).1
attempt-IsSound env r backend remainder bm s =
    let (cs, same) = attempt-step env r backend remainder bm in
    let all = call_allow env.allow_time ∷ cs in
    let (v, t) = s backend.service_id in
    let cb = get bm backend.service_id in
    rw same (
      put-IsSound bm backend.service_id (run cb all) s (run-IsValid cb all v t)
        (run-positive cb all t))

leave-IsSound :
    (o : Outcome) (bm : BreakerMap) (rest : Reply × BreakerMap)
    → IsSound bm
    → IsSound rest.1
    → IsSound (leave o bm rest).1
unfolding leave
leave-IsSound (answered br) bm rest s t = s
leave-IsSound refused bm rest s t = t
leave-IsSound (upstream_error br) bm rest s t = t
leave-IsSound failed bm rest s t = t

attempts-IsSound :
    (env : ℕ → Attempt) (r : Request) (name remainder : String)
    → (n i : ℕ) (backend : Backend) (last : Last) (bm : BreakerMap) → IsSound bm
    → IsSound (attempts env r name remainder n i backend last bm).1
unfolding attempts
attempts-IsSound env r name remainder zero i backend last bm s = s
attempts-IsSound env r name remainder (suc n) i backend last bm s =
    let here = next_backend (env i) name i backend in
    let (outcome, bm') = attempt (env i) r here remainder bm in
    let s' = attempt-IsSound (env i) r here remainder bm s in
    let r' = next_request (env i) r here outcome in
    let later = attempts-IsSound env r' name remainder n (suc i) here (note last outcome) bm' s' in
    leave-IsSound outcome bm' _ s' later

-- With valid breakers and a positive failure threshold, a request leaves only valid breakers behind:
-- every call that the proxy makes on them is one of the breaker's own operations.
pub serve_http-IsSound :
    (env : ℕ → Attempt) (r : Request) (p : Proxy)
    → IsSound p.breakers
    → IsSound (serve_http env r p).1.breakers
unfolding serve_http
serve_http-IsSound env r p s =
    let parsed = parse_service_from_path (table_prefix (env 0).table) r.path in
    elim (Option-cases parsed) [
      | inl n ↦ rw (n, serve_http) s
      | inr ((name, remainder), e) ↦
          elim (Option-cases (lookup_backend (env 0).random (env 0).table name)) [
            | inl n ↦ rw (e, n, serve_http) s
            | inr (backend, f) ↦
                rw (e, f, serve_http)
                  (attempts-IsSound env (limited_request r) name remainder
                    (rounds (add64 p.resilience.retry_count (pos 1))) 0 backend _ p.breakers s)
          ]
    ]

-- Every round comes to this backend, and its breaker is open and does not let the round through.
pub record IsBlocked (env : ℕ → Attempt) (name : String) (backend : Backend) (bm : BreakerMap)
    : Type 0 where
  pub looked_up : (i : ℕ) → lookup_backend (env i).random (env i).table name ≡ some backend
  pub is_tripped : (get bm backend.service_id).state ≡ open_circuit
  pub in_break :
      (i : ℕ)
      → (env i).allow_time
        < instant_after
            (get bm backend.service_id).opened_at
            (get bm backend.service_id).break_duration

-- the same breaker under every ID
abbrev pub SameBreakers : BreakerMap → BreakerMap → Type 0
SameBreakers bm bm' = (id : String) → get bm' id ≡ get bm id

put_same : (bm : BreakerMap) (id : String) → SameBreakers bm (put bm id (get bm id))
put_same bm id j = elim (Bool-cases (str_eq id j)) [
  | inl e ↦ rw (get-put bm id j (get bm id), e) (ap (get bm) ((eq_iff id j).0 e))
  | inr e ↦ rw (get-put bm id j (get bm id), e) refl
]

attempt-blocked :
    (env : Attempt) (r : Request) (backend : Backend) (remainder : String) (bm : BreakerMap)
    → (get bm backend.service_id).state ≡ open_circuit
    → env.allow_time
      < instant_after
          (get bm backend.service_id).opened_at
          (get bm backend.service_id).break_duration
    → attempt env r backend remainder bm
      ≡ (refused, put bm backend.service_id (get bm backend.service_id))
unfolding attempt allow
attempt-blocked env r backend remainder bm o t = ground arith

same-IsBlocked :
    (env : ℕ → Attempt) (name : String) (backend : Backend) (bm bm' : BreakerMap)
    → SameBreakers bm bm'
    → IsBlocked env name backend bm
    → IsBlocked env name backend bm'
same-IsBlocked env name backend bm bm' same k = record {
  looked_up = k.looked_up;
  is_tripped = rw (same backend.service_id) k.is_tripped;
  in_break = λ i. rw (same backend.service_id) (k.in_break i);
}

pub next_same :
    (env : ℕ → Attempt) (name : String) (i : ℕ) (backend : Backend)
    → lookup_backend (env i).random (env i).table name ≡ some backend
    → next_backend (env i) name i backend ≡ backend
unfolding next_backend
next_same env name zero backend h = refl
next_same env name (suc i) backend h = rw (h, next_backend) refl

note_twice : (last : Last) → note (note last refused) refused ≡ note last refused
unfolding note
note_twice last = refl

attempts-blocked :
    (env : ℕ → Attempt) (r : Request) (name remainder : String) (backend : Backend)
    → (n i : ℕ) (last : Last) (bm : BreakerMap) → IsBlocked env name backend bm
    → ((attempts env r name remainder n i backend last bm).0
        ≡ finish (if n == 0 then last else note last refused))
      × SameBreakers bm (attempts env r name remainder n i backend last bm).1
unfolding attempts leave next_request
attempts-blocked env r name remainder backend zero i last bm k = (refl, λ id. refl)
attempts-blocked env r name remainder backend (suc n) i last bm k =
    let id = backend.service_id in
    let bm' = put bm id (get bm id) in
    let same = put_same bm id in
    let (reply, kept) =
      attempts-blocked env r name remainder backend n (suc i) (note last refused) bm'
        (same-IsBlocked env name backend bm bm' same k) in
    let next = next_same env name i backend (k.looked_up i) in
    let outcome = attempt-blocked (env i) r backend remainder bm k.is_tripped (k.in_break i) in
    let first : (attempt (env i) r backend remainder bm).0 ≡ refused = ap (λ x. x.0) outcome in
    let second : (attempt (env i) r backend remainder bm).1 ≡ bm' = ap (λ x. x.1) outcome in
    rw (next, first, second)
      (reply ∙ ap finish (ground (arith, note_twice last)), λ j. kept j ∙ same j)

-- While the breaker of a service's only backend is open and its break lasts, every request of the
-- service is answered with the error 503, and the breakers stay what they are. (The retry count is not
-- negative and below the largest int64: at that one, the number of rounds wraps and there is no round.)
pub serve_http-blocked :
    (env : ℕ → Attempt) (r : Request) (p : Proxy) (name remainder : String) (backend : Backend)
    (n : ℕ)
    → parse_service_from_path (table_prefix (env 0).table) r.path ≡ some (name, remainder)
    → IsBlocked env name backend p.breakers
    → p.resilience.retry_count ≡ pos n
    → n < max_int64
    → ((serve_http env r p).0 ≡ upstream_failed (pos 503))
      × SameBreakers p.breakers (serve_http env r p).1.breakers
unfolding serve_http add64 note finish
serve_http-blocked env r p name remainder backend n parsed k count bound =
    let start : Last = record { status = pos 0; response = none } in
    let (reply, kept) =
      attempts-blocked env (limited_request r) name remainder backend (suc n) 0 start p.breakers
        k in
    let left : rounds (add64 p.resilience.retry_count (pos 1)) ≡ suc n = ground arith in
    let failure : (attempts env (limited_request r) name remainder (suc n) 0 backend start
          p.breakers).0
        ≡ upstream_failed (pos 503) =
      reply ∙ ground arith in
    rw (parsed, k.looked_up 0, left, serve_http) (failure, kept)
