-- ===== src/Gateway/Proxy/Interleave/Tests.antt =====
-- Interleaved requests at concrete inputs.
use toska_mesh.Prelude.{
  ℕ, ◌≤◌, ◌≡◌, refl, ◌≢◌, inl, inr, List, [], ◌∷◌, arith, str_eq, if◌then◌else◌, Bool-cases,
}
use toska_mesh.Prelude.Int.{pos}
use toska_mesh.Prelude.Dict.{lookup, insert}
use toska_mesh.HealthMonitor.Breaker.{closed, open_circuit, new_circuit_breaker, allow, run}
use toska_mesh.Gateway.Proxy.{get}
use toska_mesh.Gateway.Proxy.Protect.{IsSound}
use toska_mesh.Gateway.Proxy.Interleave.{
  Flight, enter, Shared, Event, let_in, turned_away, admit, turn_away, Steps, done, next, calls,
  admissions, steps-run,
}
use toska_mesh.Gateway.Proxy.Interleave.Guard.{steps-single_probe, InBreak, steps-fail_fast}
use toska_mesh.HealthMonitor.Breaker.Recovery.{count_admitted}
use toska_mesh.Gateway.Proxy.Tests.{backend, round, request, tripped_proxy, tripped_proxy-IsBlocked}

-- An attempt at the instant `now`, whose upstream answers with 200.
abbrev flight_at : ℕ → Flight
flight_at now = record {
  env = record (round (pos 200)) { allow_time = now };
  request = request;
  backend = backend;
  remainder = "/7";
}

abbrev open_start : Shared
open_start = record { breakers = tripped_proxy.breakers; flights = [] }

-- one request during the break, one that is the probe, one that comes while the probe is out
abbrev events : List Event
events = turned_away (flight_at 50) ∷ let_in (flight_at 130) ∷ turned_away (flight_at 131) ∷ []

abbrev probing : Shared
probing = record {
  breakers =
      (enter (flight_at 131)
        (enter (flight_at 130) (enter (flight_at 50) open_start.breakers).0).0).0;
  flights = flight_at 130 ∷ [];
}

interleaved : Steps open_start events probing
unfolding enter get lookup insert allow
interleaved = next _ _ _ _ _ (turn_away (flight_at 50) refl) (
    next _ _ _ _ _ (admit (flight_at 130) refl)
      (next _ _ _ _ _ (turn_away (flight_at 131) refl) (done _)))

steps-run_example :
    (get probing.breakers "orders-1"
      ≡ run (get open_start.breakers "orders-1") (calls "orders-1" events))
    × (admissions "orders-1" events
        ≡ count_admitted (get open_start.breakers "orders-1") (calls "orders-1" events))
steps-run_example = steps-run open_start probing events "orders-1" interleaved

tripped_proxy-IsSound : IsSound open_start.breakers
unfolding get lookup new_circuit_breaker
tripped_proxy-IsSound id = elim (Bool-cases (str_eq "orders-1" id)) [
  | inl e ↦ rw (get, lookup, e) (ground arith)
  | inr e ↦ rw (get, lookup, e) (ground arith)
]

not_closed : (get open_start.breakers "orders-1").state ≢ closed
unfolding get lookup
not_closed e = cc

steps-single_probe_example :
    admissions "orders-1" events
    ≤ (if (get open_start.breakers "orders-1").half_open_used then 0 else 1)
steps-single_probe_example =
    steps-single_probe open_start probing events "orders-1" interleaved tripped_proxy-IsSound
      not_closed (tt, (tt, (tt, tt)))

abbrev refused_once : Shared
refused_once = record { breakers = (enter (flight_at 50) open_start.breakers).0; flights = [] }

turned : Steps open_start (turned_away (flight_at 50) ∷ []) refused_once
unfolding enter get lookup allow
turned = next _ _ _ _ _ (turn_away (flight_at 50) refl) (done _)

breaks : InBreak "orders-1" (get open_start.breakers "orders-1") (turned_away (flight_at 50))
unfolding get lookup
breaks e = omega arith

steps-fail_fast_example :
    ((get refused_once.breakers "orders-1").state ≡ open_circuit)
    × (admissions "orders-1" (turned_away (flight_at 50) ∷ []) ≡ 0)
steps-fail_fast_example =
    steps-fail_fast open_start refused_once (turned_away (flight_at 50) ∷ []) "orders-1" turned
      tripped_proxy-IsBlocked.is_tripped (breaks, tt)
