-- ===== src/Gateway/Proxy/Retry.antt =====
-- Which reply the retries lead to.
use toska_mesh.Prelude.{
  ℕ, zero, suc, ◌≤◌, String, Bool, true, false, Option, none, some, List, [], ◌∷◌, arith,
  if◌then◌else◌, length, any,
}
use toska_mesh.Prelude.Int.{pos}
use toska_mesh.Gateway.Routes.{Backend}
use toska_mesh.Gateway.Proxy.{
  BufferedResponse, BreakerMap, Proxy, Attempt, Outcome, answered, refused, upstream_error, failed,
  attempt, Last, Reply, response, upstream_failed, finish, note, next_backend, next_request,
}
use toska_mesh.Gateway.Http.{Request}

-- the rounds end with this outcome
abbrev pub is_answer : Outcome → Bool
is_answer (answered br) = true
is_answer _ = false

-- The outcomes of the rounds from number `i` on, of which at most `n` take place.
unfoldable pub outcomes :
    (ℕ → Attempt) → Request → String → String → ℕ → ℕ → Backend → BreakerMap → List Outcome
outcomes env r name remainder zero i backend bm = []
outcomes env r name remainder (suc n) i backend bm =
    let here = next_backend (env i) name i backend in
    let (outcome, bm') = attempt (env i) r here remainder bm in
    let rest =
      outcomes env (next_request (env i) r here outcome) name remainder n (suc i) here bm' in
    outcome ∷ (if is_answer outcome then [] else rest)

abbrev pub is_refusal : Outcome → Bool
is_refusal refused = true
is_refusal _ = false

-- the first response below 500
abbrev pub first_answer : List Outcome → Option BufferedResponse
first_answer [] = none
first_answer (answered br ∷ os) = some br
first_answer (refused ∷ os) = first_answer os
first_answer (upstream_error br ∷ os) = first_answer os
first_answer (failed ∷ os) = first_answer os

-- the last response from 500 on
abbrev pub last_error : List Outcome → Option BufferedResponse → Option BufferedResponse
last_error [] old = old
last_error (upstream_error br ∷ os) old = last_error os (some br)
last_error (answered br ∷ os) old = last_error os old
last_error (refused ∷ os) old = last_error os old
last_error (failed ∷ os) old = last_error os old

-- The reply for a sequence of outcomes.
abbrev pub reply_of : List Outcome → Reply
reply_of os = elim (first_answer os) [
  | some br ↦ response br
  | none ↦ elim (last_error os none) [
    | some br ↦ response br
    | none ↦ upstream_failed (if any is_refusal os then pos 503 else pos 502)
  ]
]

-- `lastStatus` and `lastResp` behind a sequence of outcomes
notes : Last → List Outcome → Last
notes last [] = last
notes last (o ∷ os) = notes (note last o) os

reply_from : Last → List Outcome → Reply
reply_from last os = elim (first_answer os) [
  | some br ↦ response br
  | none ↦ finish (notes last os)
]

pub length-outcomes :
    (env : ℕ → Attempt) (r : Request) (name remainder : String)
    → (n i : ℕ) (backend : Backend) (bm : BreakerMap)
    → length (outcomes env r name remainder n i backend bm) ≤ n
unfolding outcomes
length-outcomes env r name remainder zero i backend bm = omega arith
length-outcomes env r name remainder (suc n) i backend bm =
    let here = next_backend (env i) name i backend in
    let (outcome, bm') = attempt (env i) r here remainder bm in
    let r' = next_request (env i) r here outcome in
    ground (arith, length-outcomes env r' name remainder n (suc i) here bm')

abbrev pub nothing_yet : Last
nothing_yet = record { status = pos 0; response = none }
