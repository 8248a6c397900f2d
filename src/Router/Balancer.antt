-- ===== src/Router/Balancer.antt =====
-- internal/router/balancer.go: `LoadBalancer`. Calls are taken one after another; the pointers to
-- counters are never shared between two keys, so a map of counters holds their values.
use toska_mesh.Prelude.{
  String, ◌≡◌, ◌||◌, Option, none, some, List, [], ◌∷◌, arith, str_eq, if◌then◌else◌, null,
}
use toska_mesh.Prelude.Int.{ℤ, pos, negsuc, pos_part, ltb_ℤ, add64}
use toska_mesh.Prelude.Dict.{Dict, lookup, insert, lookup-insert}
use toska_mesh.Prelude.Text.{◌+ₛ◌}
use toska_mesh.Router.{
  Strategy, round_robin, least_connections, random, weighted_round_robin, ip_hash, Instance,
  Context, RequestResult, Stats,
}
use toska_mesh.Router.Strategies.{
  filter_healthy, filter_non_unknown, resolve_strategy, abs64, pick_mod, expand, Random,
  select_ip_hash, select_random,
}
use toska_mesh.Router.Tracking.{
  ServiceStats, new_service_stats, count_of, record_instance, report, no_totals, total_from, quot,
}

pub record LoadBalancer : Type 0 where
  pub round_robin_idx : Dict ℤ
  pub connection_count : Dict (Dict ℤ)
  pub stats : Dict ServiceStats

-- `NewLoadBalancer`; the provider is an argument of `select`.
unfoldable pub new_load_balancer : LoadBalancer
new_load_balancer = record { round_robin_idx = []; connection_count = []; stats = [] }

-- `selectRoundRobin`, with `getRoundRobinIdx` (a missing counter starts at 0)
unfoldable pub select_round_robin :
    LoadBalancer → String → List Instance → LoadBalancer × Option Instance
select_round_robin lb name instances =
    let n = add64 (count_of name lb.round_robin_idx) (pos 1) in
    (record lb { round_robin_idx = insert name n lb.round_robin_idx }, pick_mod (abs64 n) instances)

-- `getOrCreateCounter`: the counters, with one for the ID
unfoldable pub get_or_create : Dict ℤ → String → Dict ℤ
get_or_create counts id = elim (lookup id counts) [
  | none ↦ insert id (pos 0) counts
  | some v ↦ counts
]

-- the loop of `selectLeastConnections`
unfoldable pub find_least : Dict ℤ → Option Instance → ℤ → List Instance → Dict ℤ × Option Instance
find_least counts best best_count [] = (counts, best)
find_least counts best best_count (inst ∷ rest) =
    let counts' = get_or_create counts inst.service_id in
    let v = count_of inst.service_id counts' in
    let better = ltb_ℤ best_count (pos 0) || ltb_ℤ v best_count in
    find_least counts' (if better then some inst else best) (if better then v else best_count) rest

-- `getConnectionCounts`
unfoldable pub counts_of : String → Dict (Dict ℤ) → Dict ℤ
counts_of name m = elim (lookup name m) [ none ↦ [] | some counts ↦ counts ]

pub counts_of-insert :
    (k j : String) (c : Dict ℤ) (m : Dict (Dict ℤ))
    → counts_of j (insert k c m) ≡ (if str_eq k j then c else counts_of j m)
unfolding counts_of
counts_of-insert k j c m = ground (arith, lookup-insert k j c m)

-- the increment at the end of `selectLeastConnections`
abbrev pub count_best : Dict ℤ → Option Instance → Dict ℤ
count_best counts none = counts
count_best counts (some inst) =
    let counts' = get_or_create counts inst.service_id in
    insert inst.service_id (add64 (count_of inst.service_id counts') (pos 1)) counts'

-- `selectLeastConnections`
unfoldable pub select_least_connections :
    LoadBalancer → String → List Instance → LoadBalancer × Option Instance
select_least_connections lb name instances =
    let (counts, best) =
      find_least (counts_of name lb.connection_count) none (negsuc 0) instances in
    (
      record lb { connection_count = insert name (count_best counts best) lb.connection_count },
      best,
    )

-- `selectWeightedRoundRobin`
unfoldable pub select_weighted_round_robin :
    LoadBalancer → String → List Instance → LoadBalancer × Option Instance
select_weighted_round_robin lb name instances =
    select_round_robin lb (name +ₛ "-weighted") (expand instances)

-- `lb.recordRequest`
unfoldable pub record_request : LoadBalancer → String → Instance → LoadBalancer
record_request lb name inst =
    let s : ServiceStats = elim (lookup inst.service_id lb.stats) [
      | none ↦ new_service_stats name
      | some s ↦ s
    ] in
    record lb { stats = insert inst.service_id (record_instance s inst.service_id) lb.stats }

-- the `switch` of `Select`
unfoldable pub dispatch :
    Strategy
    → LoadBalancer
    → String
    → List Instance
    → Context
    → Random
    → LoadBalancer × Option Instance
dispatch least_connections lb name candidates ctx r = select_least_connections lb name candidates
dispatch weighted_round_robin lb name candidates ctx r =
    select_weighted_round_robin lb name candidates
dispatch ip_hash lb name candidates ctx r = (lb, select_ip_hash candidates ctx r)
dispatch random lb name candidates ctx r = (lb, select_random candidates r)
dispatch round_robin lb name candidates ctx r = select_round_robin lb name candidates

-- the candidates of `Select`: the healthy instances, or else those of known health
unfoldable pub candidates_of : List Instance → List Instance
candidates_of instances =
    let healthy_ones = filter_healthy instances in
    if null healthy_ones then filter_non_unknown instances else healthy_ones

-- The provider's answer: the instances of a service, or an error.
pub data Fetched : Type 0 where
  fetched : List Instance → Fetched
  fetch_error : String → Fetched

-- The answer of `Select`: an instance or nil, or an error.
pub data Selection : Type 0 where
  selected : Option Instance → Selection
  select_error : String → Selection

abbrev pub record_selected : LoadBalancer × Option Instance → String → LoadBalancer × Selection
record_selected (lb, none) name = (lb, selected none)
record_selected (lb, some inst) name = (record_request lb name inst, selected (some inst))

-- `Select` after the candidates are known
unfoldable pub select_among :
    LoadBalancer → String → List Instance → Context → Random → LoadBalancer × Selection
select_among lb name candidates ctx r =
    if null candidates
    then (lb, selected none)
    else record_selected (dispatch (resolve_strategy candidates) lb name candidates ctx r) name

-- `Select`
unfoldable pub select :
    (String → Fetched) → LoadBalancer → String → Context → Random → LoadBalancer × Selection
unfolding select_among
select provider lb name ctx r = elim (provider name) [
  | fetch_error e ↦ (lb, select_error e)
  | fetched instances ↦ select_among lb name (candidates_of instances) ctx r
]

-- `if v := c.Load(); v > 0 { c.Add(-1) }`
unfoldable pub release : String → Dict ℤ → Dict ℤ
release id counts = elim (lookup id counts) [
  | none ↦ counts
  | some v ↦ if ltb_ℤ (pos 0) v then insert id (add64 v (negsuc 0)) counts else counts
]

-- the loop of `ReportResult` over the services
unfoldable pub release_all : String → Dict (Dict ℤ) → Dict (Dict ℤ)
release_all id [] = []
release_all id ((name, counts) ∷ m) = (name, release id counts) ∷ release_all id m

-- `ReportResult`
unfoldable pub report_result : LoadBalancer → String → RequestResult → LoadBalancer
report_result lb id result = record lb {
  connection_count = release_all id lb.connection_count;
  stats = elim (lookup id lb.stats) [
    | none ↦ lb.stats
    | some s ↦ insert id (report s result) lb.stats
  ];
}

-- `Stats`
unfoldable pub stats_of : LoadBalancer → String → Stats
stats_of lb name =
    let t = total_from no_totals name lb.stats in
    record {
      service_name = name;
      total_requests = t.requests;
      successful_requests = t.successes;
      failed_requests = t.failures;
      average_response_time =
          if ltb_ℤ (pos 0) t.requests then quot t.nanos (pos_part t.requests) else pos 0;
      instance_request_counts = t.counts;
    }
