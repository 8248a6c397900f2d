-- ===== src/Router/Tests.antt =====
-- Runs of the load balancer at concrete inputs.
use toska_mesh.Prelude.{
  ◌+◌, ◌≤◌, String, ◌≡◌, refl, Bool, true, some, List, [], ◌∷◌, arith, str_eq, if◌then◌else◌, All,
}
use toska_mesh.Prelude.Int.{pos, ◌≤ℤ◌, max_int64, add64}
use toska_mesh.Prelude.Dict.{Dict, lookup, insert}
use toska_mesh.Prelude.Text.{◌+ₛ◌, to_lower, digits, unsigned, atoi}
use toska_mesh.Types.{HealthStatus, healthy, unhealthy}
use toska_mesh.Router.{ip_hash, parse_strategy, Instance, Context, RequestResult}
use toska_mesh.Router.Strategies.{
  filter_healthy, resolve_strategy, abs64, pick_mod, Random, IsRandom,
}
use toska_mesh.Router.Tracking.{count_of}
use toska_mesh.Router.Balancer.{
  LoadBalancer, new_load_balancer, select_round_robin, get_or_create, find_least, counts_of,
  select_least_connections, dispatch, candidates_of, Fetched, fetched, selected, select_among,
  select,
}
use toska_mesh.Router.Selection.{IsSelection, select-IsSelection}
use toska_mesh.Router.Fairness.{
  tally, weight_of, weighted_picks, declared_weight, cycle_length, weighted_picks_fair,
}
use toska_mesh.Router.Least.{load, counts_before, select_least_connections_min}
use toska_mesh.Router.Accounting.{IsCounted, call_select, call_report, run, run-IsCounted}

abbrev instance_at : String → HealthStatus → Dict String → Instance
instance_at id status metadata = record {
  service_name = "orders";
  service_id = id;
  address = "10.0.0.1";
  port = pos 8080;
  status = status;
  metadata = metadata;
  registered_at = 1;
  last_health_check = 0;
}

abbrev heavy : Instance
heavy = instance_at "a" healthy (("weight", "3") ∷ [])

abbrev light : Instance
light = instance_at "b" healthy []

abbrev sick : Instance
sick = instance_at "c" unhealthy []

abbrev two : List Instance
two = heavy ∷ light ∷ []

abbrev provider : String → Fetched
provider name = fetched (heavy ∷ sick ∷ light ∷ [])

abbrev hashed : Instance
hashed = instance_at "d" healthy (("lb_strategy", "IPHash") ∷ [])

abbrev hash_provider : String → Fetched
hash_provider name = fetched (hashed ∷ light ∷ [])

abbrev ctx : Context
ctx = record { preferred_zone = ""; headers = []; session_id = "s-1" }

abbrev zeros : Random
zeros = record { int64 = 0; int_n = λ n. 0 }

zeros-IsRandom : IsRandom zeros
zeros-IsRandom = record { int64_range = omega arith; int_n_range = λ n h. h }

select-IsSelection_example :
    IsSelection (heavy ∷ sick ∷ light ∷ []) (select provider new_load_balancer "orders" ctx zeros).1
select-IsSelection_example =
    select-IsSelection provider new_load_balancer "orders" ctx zeros (heavy ∷ sick ∷ light ∷ [])
      refl zeros-IsRandom

by_hash : resolve_strategy (candidates_of (hashed ∷ light ∷ [])) ≡ ip_hash
unfolding resolve_strategy candidates_of filter_healthy lookup parse_strategy to_lower
by_hash = ground arith

abbrev busy : LoadBalancer
busy = record {
  round_robin_idx = ("orders", pos 7) ∷ [];
  connection_count = ("orders", ("a", pos 2) ∷ ("b", pos 1) ∷ []) ∷ [];
  stats = [];
}

seven : count_of "orders" busy.round_robin_idx ≡ pos 7
unfolding count_of lookup
seven = refl

abbrev is_heavy : Instance → Bool
is_heavy x = str_eq x.service_id "a"

none_yet : count_of ("orders" +ₛ "-weighted") busy.round_robin_idx ≡ pos 0
unfolding count_of lookup
none_yet = refl

cycle_bound : 0 + cycle_length two ≤ max_int64
unfolding lookup atoi unsigned digits
cycle_bound = omega arith

weighted_picks_fair_example :
    tally is_heavy (weighted_picks (cycle_length two) busy "orders" two)
    ≡ weight_of declared_weight is_heavy two
weighted_picks_fair_example = weighted_picks_fair is_heavy 0 busy "orders" two none_yet cycle_bound

never_negative : (j : String) → pos 0 ≤ℤ count_of j (counts_before busy "orders")
unfolding count_of counts_of lookup
never_negative j = ground arith

light_picked : (select_least_connections busy "orders" two).1 ≡ some light
unfolding select_least_connections find_least count_of counts_of lookup get_or_create insert
light_picked = refl

select_least_connections_min_example :
    All (λ y. load (counts_before busy "orders") light ≤ℤ load (counts_before busy "orders") y) two
    × ((j : String)
        → count_of j (counts_before (select_least_connections busy "orders" two).0 "orders") ≡ (
            if str_eq light.service_id j
            then add64 (load (counts_before busy "orders") light) (pos 1)
            else count_of j (counts_before busy "orders")))
select_least_connections_min_example =
    select_least_connections_min busy "orders" two light never_negative light_picked

abbrev done : RequestResult
done = record {
  service_id = "b";
  success = true;
  response_time = pos 1000;
  status_code = pos 200;
  error_message = "";
}

load-light : load (counts_before busy "orders") light ≡ pos 1
unfolding count_of counts_of lookup
load-light = refl

new-IsCounted : IsCounted 0 new_load_balancer
unfolding count_of counts_of lookup new_load_balancer
new-IsCounted = record { nonneg = λ name j. omega arith; capped = λ name j. omega arith }

run-IsCounted_example :
    IsCounted
      (0 + 2)
      (run new_load_balancer (call_select provider "orders" ctx zeros ∷ call_report "a" done ∷ []))
run-IsCounted_example =
    run-IsCounted 0 new_load_balancer
      (call_select provider "orders" ctx zeros ∷ call_report "a" done ∷ []) new-IsCounted
      (omega arith)

selected_light : (select provider new_load_balancer "orders" ctx zeros).1 ≡ selected (some light)
unfolding select select_among candidates_of filter_healthy resolve_strategy dispatch
    select_round_robin pick_mod count_of counts_of lookup new_load_balancer insert abs64 add64
    parse_strategy to_lower
selected_light = refl
