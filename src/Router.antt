-- ===== src/Router.antt =====
-- internal/router/router.go: the types of the load balancer, and the names of its strategies.
pub mod Strategies
pub mod Tracking
pub mod Balancer
pub mod Selection
pub mod Fairness
pub mod Least
pub mod Accounting
pub mod Requests
pub mod Interleave
mod Tests
use toska_mesh.Prelude.{ℕ, String, ◌≡◌, refl, Bool, ◌||◌, str_eq, if◌then◌else◌}
use toska_mesh.Prelude.Int.{ℤ}
use toska_mesh.Prelude.Dict.{Dict}
use toska_mesh.Prelude.Text.{to_lower, to_lower_idem}
use toska_mesh.Types.{HealthStatus}

pub data Strategy : Type 0 where
  round_robin least_connections random weighted_round_robin ip_hash : Strategy

-- the `switch` of `ParseStrategy`, on the name in lower case
strategy_named : String → Strategy
strategy_named s =
    if str_eq s "roundrobin" || str_eq s "round_robin"
    then round_robin
    else if str_eq s "leastconnections" || str_eq s "least_connections"
    then least_connections
    else if str_eq s "random"
    then random
    else if str_eq s "weightedroundrobin" || str_eq s "weighted_round_robin"
    then weighted_round_robin
    else if str_eq s "iphash" || str_eq s "ip_hash"
    then ip_hash
    else round_robin

-- `ParseStrategy`
unfoldable pub parse_strategy : String → Strategy
unfolding strategy_named
parse_strategy name = strategy_named (to_lower name)

-- `s.String()`
unfoldable pub to_string : Strategy → String
to_string round_robin = "RoundRobin"
to_string least_connections = "LeastConnections"
to_string random = "Random"
to_string weighted_round_robin = "WeightedRoundRobin"
to_string ip_hash = "IPHash"

-- Instants are nanoseconds from Go's zero time, which is 0.
pub record Instance : Type 0 where
  pub service_name : String
  pub service_id : String
  pub address : String
  pub port : ℤ
  pub status : HealthStatus
  pub metadata : Dict String
  pub registered_at : ℕ
  pub last_health_check : ℕ

pub record Context : Type 0 where
  pub preferred_zone : String
  pub headers : Dict String
  pub session_id : String

pub record RequestResult : Type 0 where
  pub service_id : String
  pub success : Bool
  pub response_time : ℤ
  pub status_code : ℤ
  pub error_message : String

pub record Stats : Type 0 where
  pub service_name : String
  pub total_requests : ℤ
  pub successful_requests : ℤ
  pub failed_requests : ℤ
  pub average_response_time : ℤ
  pub instance_request_counts : Dict ℤ

-- The name that a strategy prints is parsed back to it.
pub parse_strategy-to_string : (s : Strategy) → parse_strategy (to_string s) ≡ s
unfolding parse_strategy to_string to_lower
parse_strategy-to_string round_robin = refl
parse_strategy-to_string least_connections = refl
parse_strategy-to_string random = refl
parse_strategy-to_string weighted_round_robin = refl
parse_strategy-to_string ip_hash = refl

-- The case of the letters does not matter.
pub parse_strategy-to_lower : (name : String) → parse_strategy (to_lower name) ≡ parse_strategy name
unfolding parse_strategy
parse_strategy-to_lower name = rw (to_lower_idem name)
