-- ===== src/Gateway/Proxy/Bodies.antt =====
-- What the upstreams receive of a request's body when its rounds are repeated.
use toska_mesh.Prelude.{
  ℕ, zero, suc, String, ◌≡◌, ◌⊎◌, Option, none, some, List, [], ◌∷◌, if◌then◌else◌, replicate,
}
use toska_mesh.Prelude.Result.{ok, err}
use toska_mesh.Gateway.Http.{RequestBody, close_body, Request}
use toska_mesh.Gateway.Routes.{Backend}
use toska_mesh.Gateway.Proxy.{
  BreakerMap, Proxy, OutRequest, Attempt, out_request, Outcome, answered, refused, upstream_error,
  failed, attempt, next_backend, next_request,
}
use toska_mesh.Gateway.Proxy.Retry.{is_answer}

-- The request that a round behind the breaker hands to `RoundTrip`, unless the address is no URL.
unfoldable pub dispatched : Attempt → Request → Backend → String → Option OutRequest
dispatched env r backend remainder = elim (env.parse_url backend.address) [
  | err e ↦ none
  | ok url ↦ some (out_request r url remainder)
]

-- The request that a round with this outcome hands to `RoundTrip`.
unfoldable pub sent : Attempt → Request → Backend → String → Outcome → Option OutRequest
unfolding dispatched
sent env r backend remainder refused = none
sent env r backend remainder (answered br) = dispatched env r backend remainder
sent env r backend remainder (upstream_error br) = dispatched env r backend remainder
sent env r backend remainder failed = dispatched env r backend remainder

-- The rounds from number `i` on: what each one sends, and how it ends.
unfoldable pub trace :
    (ℕ → Attempt)
    → Request
    → String
    → String
    → ℕ
    → ℕ
    → Backend
    → BreakerMap
    → List (Option OutRequest × Outcome)
trace env r name remainder zero i backend bm = []
trace env r name remainder (suc n) i backend bm =
    let here = next_backend (env i) name i backend in
    let (outcome, bm') = attempt (env i) r here remainder bm in
    let rest = trace env (next_request (env i) r here outcome) name remainder n (suc i) here bm' in
    (sent (env i) r here remainder outcome, outcome) ∷ (if is_answer outcome then [] else rest)

abbrev pub endings : List (Option OutRequest × Outcome) → List Outcome
endings [] = []
endings ((q, o) ∷ t) = o ∷ endings t

-- The bodies of the requests that are sent, in order.
abbrev pub bodies : List (Option OutRequest × Outcome) → List RequestBody
bodies [] = []
bodies ((none, o) ∷ t) = bodies t
bodies ((some q, o) ∷ t) = q.body ∷ bodies t

-- The transport closes the body of each request before the next round reads it. (The documentation of
-- `RoundTripper` demands that it closes the body, also on an error.)
abbrev pub Closes : (ℕ → Attempt) → Type 0
Closes env = (i : ℕ) (b : RequestBody) → (env i).body_left b ≡ close_body b

-- The first body is this one, and every later one is what closing leaves of it.
abbrev pub UsedUp : RequestBody → List RequestBody → Type 0
UsedUp b bs = (bs ≡ []) ⊎ ((k : ℕ) × (bs ≡ b ∷ replicate k (close_body b)))

-- What a round does to the body: it sends nothing and keeps it, or it sends it and closes it.
abbrev Passes : Attempt → Request → Backend → String → Outcome → Type 0
Passes env r backend remainder o =
    ((sent env r backend remainder o ≡ none) × (next_request env r backend o ≡ r))
    ⊎ ((q : OutRequest) × (sent env r backend remainder o ≡ some q)
        × (q.body ≡ r.body)
        × ((next_request env r backend o).body ≡ env.body_left r.body))
