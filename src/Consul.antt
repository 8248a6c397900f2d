-- ===== src/Consul.antt =====
-- internal/consul/registry.go: the registry, backed by the Consul agent.
pub mod Health
pub mod Ttl
pub mod Catalog
mod Tests
use toska_mesh.Prelude.Text.{◌+ₛ◌}
use toska_mesh.Prelude.Result.{Result, ok, err}
use toska_mesh.Prelude.{
  ℕ, zero, suc, ◌*◌, ◌^◌, String, not, ◌||◌, Option, none, some, List, [], map, str_eq,
  if◌then◌else◌, keep, null, any, all,
}
use toska_mesh.Prelude.Int.{ℤ, pos, negsuc, ltb_ℤ, wrap64, add64}
use toska_mesh.Prelude.Dict.{Dict, lookup, insert, delete}
use toska_mesh.Types.{HealthStatus, unknown, healthy, unhealthy, degraded}

-- Instants are nanoseconds from Go's zero time, which is 0.
pub record Instance : Type 0 where
  pub service_name : String
  pub service_id : String
  pub address : String
  pub port : ℤ
  pub status : HealthStatus
  pub metadata : Dict String
  pub registered_at : ℕ
  pub last_health_check : ℕ

pub record HealthCheckConfig : Type 0 where
  pub endpoint : String
  pub interval_seconds : ℤ
  pub timeout_seconds : ℤ
  pub unhealthy_threshold : ℤ

pub record Registration : Type 0 where
  pub service_name : String
  pub service_id : String
  pub address : String
  pub port : ℤ
  pub metadata : Dict String
  pub health_check : Option HealthCheckConfig

-- The structures of the Consul client that the program fills or reads. The durations stand for
-- their text.
pub record AgentServiceRegistration : Type 0 where
  pub id : String
  pub name : String
  pub address : String
  pub port : ℤ
  pub meta : Dict String
  pub check_id : String
  pub check_name : String
  pub ttl : ℤ
  pub deregister_critical_service_after : ℤ

pub record AgentService : Type 0 where
  pub id : String
  pub service : String
  pub address : String
  pub port : ℤ
  pub meta : Dict String

pub record ServiceEntry : Type 0 where
  pub service : AgentService
  pub checks : List String  -- the `Status` of each check

-- The Consul agent, behind its client. A call may find or leave another state, and may fail.
pub record Agent : Type 1 where
  pub State : Type 0
  pub service_register : AgentServiceRegistration → State → Option String × State
  pub service_deregister : String → State → Option String × State
  pub pass_ttl : String → String → State → Option String × State
  pub fail_ttl : String → String → State → Option String × State
  pub warn_ttl : String → String → State → Option String × State
  pub health_service : String → State → Result (List ServiceEntry) × State
  pub catalog_services : State → Result (List String) × State
  pub agent_service : String → State → Result (Option AgentService) × State

pub record Registry : Type 0 where
  pub registration_times : Dict ℕ

-- `NewRegistry`; `new_client` is `api.NewClient`, with an address in place of its default or without
unfoldable pub new_registry : (Option String → Option String) → String → Result Registry
new_registry new_client addr = elim (new_client (if str_eq addr "" then none else some addr)) [
  | some e ↦ err ("consul client: " +ₛ e)
  | none ↦ ok (record { registration_times = [] })
]

abbrev pub second : ℕ
second = 10 ^ 9

-- the interval that `Register` starts from; `time.Duration(n) * time.Second` wraps at 64 bits
unfoldable pub ttl_interval : Option HealthCheckConfig → ℤ
ttl_interval none = pos (30 * second)
ttl_interval (some hc) = elim hc.interval_seconds [
  | pos zero ↦ pos (30 * second)
  | pos (suc n) ↦ wrap64 (pos (suc n * second))
  | negsuc n ↦ pos (30 * second)
]

-- `ttlWithBuffer` of `Register`
unfoldable pub ttl_with_buffer : Option HealthCheckConfig → ℤ
ttl_with_buffer hc =
    let ttl = add64 (ttl_interval hc) (pos (5 * second)) in
    if ltb_ℤ ttl (pos (10 * second)) then pos (10 * second) else ttl

abbrev pub check_id_of : String → String
check_id_of service_id = "service:" +ₛ service_id

unfoldable pub agent_registration : Registration → AgentServiceRegistration
agent_registration reg = record {
  id = reg.service_id;
  name = reg.service_name;
  address = reg.address;
  port = reg.port;
  meta = reg.metadata;
  check_id = check_id_of reg.service_id;
  check_name = reg.service_name +ₛ " TTL Health";
  ttl = ttl_with_buffer reg.health_check;
  deregister_critical_service_after = pos (60 * second);
}

-- `mapHealthStatus`, on the `Status` of each check
unfoldable pub map_health_status : List String → HealthStatus
map_health_status checks =
    if null checks
    then unknown
    else if any (λ c. str_eq c "critical" || str_eq c "maintenance") checks
    then unhealthy
    else if any (λ c. str_eq c "warning") checks
    then degraded
    else if all (λ c. str_eq c "passing") checks
    then healthy
    else unknown

-- `r.registrationTimes[id]`, the zero time for a missing key
unfoldable pub time_of : Registry → String → ℕ
time_of r id = elim (lookup id r.registration_times) [ none ↦ 0 | some t ↦ t ]

-- one round of the loop of `GetInstances`
unfoldable pub instance_of : Registry → ServiceEntry → Instance
instance_of r entry = record {
  service_name = entry.service.service;
  service_id = entry.service.id;
  address = entry.service.address;
  port = entry.service.port;
  status = map_health_status entry.checks;
  metadata = entry.service.meta;
  registered_at = time_of r entry.service.id;
  last_health_check = 0;
}

-- A registry and the agent behind it.
module _ (a : Agent) where
  -- `Register`; `now` is read after the agent has answered.
  unfoldable pub register :
      Registry → Registration → ℕ → a.State → Option String × Registry × a.State
  register r reg now w =
      let (failure, w') = a.service_register (agent_registration reg) w in
      elim failure [
        | some e ↦ (some ("consul register: " +ₛ e), r, w')
        | none ↦ (
          none,
          record r { registration_times = insert reg.service_id now r.registration_times },
          (a.pass_ttl (check_id_of reg.service_id) "Service registered" w').1,
        )
      ]

  -- `Deregister`
  unfoldable pub deregister : Registry → String → a.State → Option String × Registry × a.State
  deregister r id w =
      let (failure, w') = a.service_deregister id w in
      elim failure [
        | some e ↦ (some ("consul deregister: " +ₛ e), r, w')
        | none ↦ (none, record r { registration_times = delete id r.registration_times }, w')
      ]

  -- `GetInstances`
  unfoldable pub get_instances : Registry → String → a.State → Result (List Instance) × a.State
  get_instances r name w =
      let (answer, w') = a.health_service name w in
      let result : Result (List Instance) = elim answer [
        | err e ↦ err ("consul get instances: " +ₛ e)
        | ok entries ↦ ok (map (instance_of r) entries)
      ] in
      (result, w')

  -- `GetServices`
  unfoldable pub get_services : a.State → Result (List String) × a.State
  get_services w =
      let (answer, w') = a.catalog_services w in
      let result : Result (List String) = elim answer [
        | err e ↦ err ("consul get services: " +ₛ e)
        | ok names ↦ ok (keep (λ name. not (str_eq name "consul")) names)
      ] in
      (result, w')

  -- `UpdateHealth`
  unfoldable pub update_health : String → HealthStatus → String → a.State → Option String × a.State
  update_health id healthy output w = a.pass_ttl (check_id_of id) output w
  update_health id unhealthy output w = a.fail_ttl (check_id_of id) output w
  update_health id degraded output w = a.warn_ttl (check_id_of id) output w
  update_health id unknown output w = a.pass_ttl (check_id_of id) output w

  -- `GetInstance`
  unfoldable pub get_instance : Registry → String → a.State → Result (Option Instance) × a.State
  get_instance r id w =
      let (answer, w') = a.agent_service id w in
      let result : Result (Option Instance) = elim answer [
        | err e ↦ err ("consul get instance: " +ₛ e)
        | ok none ↦ ok none
        | ok (some svc) ↦ ok (
            some (record {
              service_name = svc.service;
              service_id = svc.id;
              address = svc.address;
              port = svc.port;
              status = unknown;
              metadata = svc.meta;
              registered_at = time_of r id;
              last_health_check = 0;
            }))
      ] in
      (result, w')
