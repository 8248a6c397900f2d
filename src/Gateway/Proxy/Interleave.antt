-- ===== src/Gateway/Proxy/Interleave.antt =====
-- Requests that are served at the same time. Each call of `breakerMap.get`, `Allow`, `RecordSuccess`
-- and `RecordFailure` holds a mutex for its whole body, so an attempt takes two steps on the shared
-- map: it asks the breaker, and, once the upstream has answered, it reports the outcome. The steps of
-- different requests come in any order. A breaker that is looked up keeps its identity, as the map
-- never drops one.
pub mod Guard
mod Tests
use toska_mesh.Prelude.{
  ℕ, ◌+◌, String, ◌≡◌, refl, ap, ◌∙◌, inl, inr, Bool, true, false, List, [], ◌∷◌, ◌++◌, arith,
  str_eq, eq_iff, if◌then◌else◌, Bool-cases,
}
use toska_mesh.Prelude.Int.{pos, ltb_ℤ}
use toska_mesh.Prelude.Result.{ok, err}
use toska_mesh.HealthMonitor.Breaker.{
  allow, Call, call_allow, call_failure, call_success, step, run,
}
use toska_mesh.Gateway.Http.{Request}
use toska_mesh.Gateway.Routes.{Backend}
use toska_mesh.Gateway.Proxy.{BreakerMap, get, put, Attempt, forward, Outcome, settle}
use toska_mesh.HealthMonitor.Breaker.Recovery.{admitted, count_admitted}
use toska_mesh.Gateway.Proxy.Protect.{get-put}

-- One attempt of some request, with the backend it was given.
pub record Flight : Type 0 where
  pub env : Attempt
  pub request : Request
  pub backend : Backend
  pub remainder : String

abbrev pub flight_id : Flight → String
flight_id f = f.backend.service_id

-- the first half: `p.breakers.get(backend.ServiceID).Allow()`
unfoldable pub enter : Flight → BreakerMap → BreakerMap × Bool
enter f bm =
    let (cb, allowed) = allow (get bm (flight_id f)) f.env.allow_time in
    (put bm (flight_id f) cb, allowed)

-- the second half: `forward`, and what is reported to the breaker, as it is by then
unfoldable pub complete : Flight → BreakerMap → Outcome × BreakerMap
complete f bm =
    settle f.env (flight_id f) (get bm (flight_id f)) bm
      (forward f.env f.request f.backend f.remainder)

-- What the second half tells the breaker.
unfoldable pub report : Flight → Call
report f = elim (forward f.env f.request f.backend f.remainder) [
  | err e ↦ call_failure f.env.failure_time
  | ok br ↦ if ltb_ℤ br.status_code (pos 500) then call_success else call_failure f.env.failure_time
]

-- The shared map, and the attempts that were let through and have not reported yet.
pub record Shared : Type 0 where
  pub breakers : BreakerMap
  pub flights : List Flight

pub data Event : Type 0 where
  let_in turned_away completed : Flight → Event

-- One step of one request.
pub data Step (s : Shared) : Event → Shared → Type 0 where
  admit :
      (f : Flight)
      → (enter f s.breakers).1 ≡ true
      → Step s (let_in f) (record { breakers = (enter f s.breakers).0; flights = f ∷ s.flights })
  turn_away :
      (f : Flight)
      → (enter f s.breakers).1 ≡ false
      → Step s (turned_away f) (record s { breakers = (enter f s.breakers).0 })
  finish_flight :
      (before after : List Flight) (f : Flight)
      → s.flights ≡ before ++ f ∷ after
      → Step s
          (completed f)
          (record { breakers = (complete f s.breakers).1; flights = before ++ after })

-- Any number of steps, with their events in order.
pub data Steps : Shared → List Event → Shared → Type 0 where
  done : (s : Shared) → Steps s [] s
  next :
      (s t u : Shared) (e : Event) (es : List Event)
      → Step s e t
      → Steps t es u
      → Steps s (e ∷ es) u

abbrev pub event_flight : Event → Flight
event_flight (let_in f) = f
event_flight (turned_away f) = f
event_flight (completed f) = f

abbrev pub event_call : Event → Call
event_call (let_in f) = call_allow f.env.allow_time
event_call (turned_away f) = call_allow f.env.allow_time
event_call (completed f) = report f

-- The calls that a sequence of events makes on the breaker of one ID.
abbrev pub calls : String → List Event → List Call
calls id [] = []
calls id (e ∷ es) =
    if str_eq (flight_id (event_flight e)) id then event_call e ∷ calls id es else calls id es

abbrev pub passes : Event → ℕ
passes (let_in f) = 1
passes _ = 0

-- The number of requests that the breaker of one ID lets through.
abbrev pub admissions : String → List Event → ℕ
admissions id [] = 0
admissions id (e ∷ es) =
    (if str_eq (flight_id (event_flight e)) id then passes e else 0) + admissions id es

complete-step :
    (f : Flight) (bm : BreakerMap)
    → (complete f bm).1 ≡ put bm (flight_id f) (step (get bm (flight_id f)) (report f))
unfolding complete settle report step
complete-step f bm = ground arith

get-put-step :
    (bm : BreakerMap) (i id : String) (c : Call)
    → get (put bm i (step (get bm i) c)) id
      ≡ (if str_eq i id then step (get bm id) c else get bm id)
get-put-step bm i id c = elim (Bool-cases (str_eq i id)) [
  | inl h ↦ rw (get-put, h) (ap (λ j. step (get bm j) c) ((eq_iff i id).0 h))
  | inr h ↦ rw (get-put, h) refl
]

-- After a step, the breaker of the event's ID is one call further, and every other one is as before.
step-get :
    (s t : Shared) (e : Event) (id : String)
    → Step s e t
    → get t.breakers id ≡ (
        if str_eq (flight_id (event_flight e)) id
        then step (get s.breakers id) (event_call e)
        else get s.breakers id)
unfolding enter step
step-get s t e id (admit f a) =
    get-put-step s.breakers (flight_id f) id (call_allow f.env.allow_time)
step-get s t e id (turn_away f a) =
    get-put-step s.breakers (flight_id f) id (call_allow f.env.allow_time)
step-get s t e id (finish_flight before after f a) =
    rw (complete-step f s.breakers) (get-put-step s.breakers (flight_id f) id (report f))

-- A step lets a request through exactly when the breaker's call does.
passes-admitted :
    (s t : Shared) (e : Event)
    → Step s e t
    → passes e ≡ admitted (get s.breakers (flight_id (event_flight e))) (event_call e)
unfolding enter report
passes-admitted s t e (admit f a) = ground arith
passes-admitted s t e (turn_away f a) = ground arith
passes-admitted s t e (finish_flight before after f a) = ground arith

-- Whatever the order in which requests interleave, the breaker of each ID goes through a sequence of
-- its own calls, namely those of the events for this ID in order, and the requests let through for
-- the ID are those that this sequence lets through.
pub steps-run :
    (s t : Shared) (es : List Event) (id : String)
    → Steps s es t
    → (get t.breakers id ≡ run (get s.breakers id) (calls id es))
      × (admissions id es ≡ count_admitted (get s.breakers id) (calls id es))
unfolding run
steps-run s t es id (done _) = (refl, refl)
steps-run s u es id (next _ t _ e es' here later) =
    let (state, count) = steps-run t u es' id later in
    let moved = step-get s t e id here in
    elim (Bool-cases (str_eq (flight_id (event_flight e)) id)) [
      | inl h ↦
          let same : get t.breakers id ≡ step (get s.breakers id) (event_call e) =
            rw moved (rw h refl) in
          let first : passes e ≡ admitted (get s.breakers id) (event_call e) =
            passes-admitted s t e here
            ∙ ap (λ i. admitted (get s.breakers i) (event_call e)) ((eq_iff _ id).0 h) in
          (rw (h, state, same) refl, rw (h, first, count, same) refl)
      | inr h ↦
          let same : get t.breakers id ≡ get s.breakers id = rw moved (rw h refl) in
          (rw (h, state, same) refl, rw (h, count, same) (omega arith))
    ]
