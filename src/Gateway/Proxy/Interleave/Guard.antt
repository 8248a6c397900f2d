-- ===== src/Gateway/Proxy/Interleave/Guard.antt =====
-- What the breakers guarantee however the requests interleave.
use toska_mesh.Prelude.{
  ℕ, ◌≤◌, ◌<◌, String, ◌≡◌, refl, ◌≢◌, inl, inr, List, [], ◌∷◌, arith, str_eq, eq_iff, eq_refl,
  if◌then◌else◌, Bool-cases, All,
}
use toska_mesh.HealthMonitor.Breaker.{
  closed, open_circuit, CircuitBreaker, allow, record_failure, current_state, Call, call_allow,
  call_failure, call_state, call_success, step, run,
}
use toska_mesh.HealthMonitor.Breaker.Invariant.{run-positive, run-IsValid}
use toska_mesh.HealthMonitor.Breaker.Recovery.{count_admitted, NoOutcome, single_probe}
use toska_mesh.Gateway.Proxy.{
  BufferedResponse, BreakerMap, get, put, Attempt, forward, Outcome, refused, settle, attempt,
}
use toska_mesh.Gateway.Proxy.Protect.{IsSound, get-put, SameBreakers}
use toska_mesh.Gateway.Proxy.Interleave.{
  Flight, flight_id, enter, complete, Shared, Event, let_in, turned_away, completed, Steps,
  event_flight, event_call, calls, admissions, steps-run,
}
use toska_mesh.Prelude.Int.{pos, ltb_ℤ, instant_after}
use toska_mesh.Prelude.Result.{Result, ok, err}

-- Every state that is reached from valid breakers has valid breakers.
pub steps-IsSound :
    (s t : Shared) (es : List Event) → Steps s es t → IsSound s.breakers → IsSound t.breakers
steps-IsSound s t es h sound id =
    let (v, p) = sound id in
    let (state, count) = steps-run s t es id h in
    rw state (run-IsValid _ (calls id es) v p, run-positive _ (calls id es) p)

-- The outcome of a request for this ID is reported by no event.
abbrev pub NoReport : String → Event → Type 0
NoReport id (completed f) = flight_id f ≢ id
NoReport id _ = Unit

calls-NoOutcome :
    (id : String) (es : List Event) → All (NoReport id) es → All NoOutcome (calls id es)
calls-NoOutcome id [] h = tt
calls-NoOutcome id (let_in f ∷ es) h = ground (arith, calls-NoOutcome id es h.1)
calls-NoOutcome id (turned_away f ∷ es) h = ground (arith, calls-NoOutcome id es h.1)
calls-NoOutcome id (completed f ∷ es) h =
    ground (arith, calls-NoOutcome id es h.1, eq_iff (flight_id f) id)

-- However requests interleave, a breaker that is not closed lets at most one request through to the
-- upstream until the outcome of a request for it is reported, and none while its probe is out.
pub steps-single_probe :
    (s t : Shared) (es : List Event) (id : String)
    → Steps s es t
    → IsSound s.breakers
    → (get s.breakers id).state ≢ closed
    → All (NoReport id) es
    → admissions id es ≤ (if (get s.breakers id).half_open_used then 0 else 1)
steps-single_probe s t es id h sound o n =
    let (state, count) = steps-run s t es id h in
    rw count (single_probe _ (calls id es) (sound id).0 o (calls-NoOutcome id es n))

-- A call that happens in a break that started at `opened` and ends before `over`: no success, no
-- `Allow` after the end, and no failure from before the start.
abbrev pub DuringBreak : ℕ → ℕ → Call → Type 0
DuringBreak opened over (call_allow now) = now < over
DuringBreak opened over (call_failure now) = opened ≤ now
DuringBreak opened over (call_state now) = now < over
DuringBreak opened over call_success = ⊥

-- An event during the break of this breaker, if it is one of this ID.
abbrev pub InBreak : String → CircuitBreaker → Event → Type 0
InBreak id cb e =
    flight_id (event_flight e) ≡ id
    → DuringBreak cb.opened_at (instant_after cb.opened_at cb.break_duration) (event_call e)

calls-DuringBreak :
    (id : String) (cb : CircuitBreaker) (es : List Event)
    → All (InBreak id cb) es
    → All (DuringBreak cb.opened_at (instant_after cb.opened_at cb.break_duration)) (calls id es)
calls-DuringBreak id cb [] h = tt
calls-DuringBreak id cb (e ∷ es) h =
    let rest = calls-DuringBreak id cb es h.1 in
    elim (Bool-cases (str_eq (flight_id (event_flight e)) id)) [
      | inl m ↦ rw m (h.0 ((eq_iff _ id).0 m), rest)
      | inr m ↦ rw m rest
    ]

run-blocked :
    (cb : CircuitBreaker) (cs : List Call) (opened over : ℕ)
    → cb.state ≡ open_circuit
    → opened ≤ cb.opened_at
    → over ≡ instant_after opened cb.break_duration
    → All (DuringBreak opened over) cs
    → ((run cb cs).state ≡ open_circuit) × (count_admitted cb cs ≡ 0)
unfolding run step allow record_failure current_state
run-blocked cb [] opened over o l e h = (o, refl)
run-blocked cb (call_allow now ∷ cs) opened over o l e h =
    ground (arith, run-blocked cb cs opened over o l e h.1)
run-blocked cb (call_failure now ∷ cs) opened over o l e h =
    ground (arith, run-blocked (record_failure cb now) cs opened over)
run-blocked cb (call_state now ∷ cs) opened over o l e h =
    ground (arith, run-blocked cb cs opened over o l e h.1)
run-blocked cb (call_success ∷ cs) opened over o l e h = absurd h.0

-- While a breaker's break lasts, no request for its ID reaches the upstream, however requests
-- interleave, and it stays open. Requests that were let through earlier may still fail: their failures
-- may not be dated before the start of the break, and none of them may succeed.
pub steps-fail_fast :
    (s t : Shared) (es : List Event) (id : String)
    → Steps s es t
    → (get s.breakers id).state ≡ open_circuit
    → All (InBreak id (get s.breakers id)) es
    → ((get t.breakers id).state ≡ open_circuit) × (admissions id es ≡ 0)
steps-fail_fast s t es id h o b =
    let cb = get s.breakers id in
    let (state, count) = steps-run s t es id h in
    let (still, none_in) =
      run-blocked cb (calls id es) cb.opened_at (instant_after cb.opened_at cb.break_duration) o
        (omega arith) refl (calls-DuringBreak id cb es b) in
    (rw state still, rw count none_in)

-- one attempt that nothing interrupts
abbrev alone : Flight → BreakerMap → Outcome × BreakerMap
alone f bm = let (bm', allowed) = enter f bm in if allowed then complete f bm' else (refused, bm')

put_twice :
    (bm : BreakerMap) (id : String) (cb cb' : CircuitBreaker)
    → SameBreakers (put bm id cb') (put (put bm id cb) id cb')
put_twice bm id cb cb' j =
    ground (arith, get-put (put bm id cb) id j cb', get-put bm id j cb, get-put bm id j cb')

settle-put :
    (env : Attempt) (id : String) (cb cb' : CircuitBreaker) (bm : BreakerMap)
    (answer : Result BufferedResponse)
    → ((settle env id cb (put bm id cb') answer).0 ≡ (settle env id cb bm answer).0)
      × SameBreakers (settle env id cb bm answer).1 (settle env id cb (put bm id cb') answer).1
unfolding settle
settle-put env id cb cb' bm (err e) = (refl, put_twice bm id cb' _)
settle-put env id cb cb' bm (ok br) = elim (Bool-cases (ltb_ℤ br.status_code (pos 500))) [
  | inl h ↦ rw h (refl, put_twice bm id cb' _)
  | inr h ↦ rw h (refl, put_twice bm id cb' _)
]

-- An attempt whose two steps follow one another is the attempt of `ServeHTTP`: it has the same outcome
-- and leaves the same breaker under every ID.
attempt-alone :
    (f : Flight) (bm : BreakerMap)
    → ((alone f bm).0 ≡ (attempt f.env f.request f.backend f.remainder bm).0)
      × SameBreakers (attempt f.env f.request f.backend f.remainder bm).1 (alone f bm).1
unfolding attempt enter complete
attempt-alone f bm =
    let id = flight_id f in
    let cb = (allow (get bm id) f.env.allow_time).0 in
    let answer = forward f.env f.request f.backend f.remainder in
    let found : get (put bm id cb) id ≡ cb = rw (get-put, eq_refl) refl in
    elim (Bool-cases (allow (get bm id) f.env.allow_time).1) [
      | inl h ↦ rw (h, found) (settle-put f.env id cb cb bm answer)
      | inr h ↦ rw h (refl, λ j. refl)
    ]
