-- ===== src/Consul/Tests.antt =====
-- The registry at concrete inputs.
use toska_mesh.Prelude.Int.{pos}
use toska_mesh.Prelude.{◌≡◌, refl, none, List, [], ◌∷◌, map, All}
use toska_mesh.Prelude.Dict.{Dict, lookup}
use toska_mesh.Types.{degraded}
use toska_mesh.Consul.Catalog.{Service, IsOwn, read_back, with_status}
use toska_mesh.Consul.Catalog.Kept.{kept_agent, kept_agent-Documented}
use toska_mesh.Consul.Catalog.Entries.{registered}
use toska_mesh.Consul.Catalog.Reads.{update_health-get_instances}
use toska_mesh.Consul.{
  Instance, Registration, Registry, agent_registration, map_health_status, time_of, instance_of,
  get_instances, update_health,
}

abbrev orders : Registration
orders = record {
  service_name = "orders";
  service_id = "orders-1";
  address = "10.0.0.1";
  port = pos 8080;
  metadata = [];
  health_check = none;
}

abbrev registry : Registry
registry = record { registration_times = [] }

-- what is read while the service is healthy
abbrev read : List Instance
read = registered orders 7 ∷ []

abbrev held : Dict Service
held = ("orders-1", record { registration = agent_registration orders; check = "passing" }) ∷ []

abbrev dated : Registry
dated = record { registration_times = ("orders-1", 7) ∷ [] }

held-IsOwn : All IsOwn (kept_agent-Documented.services held)
unfolding agent_registration kept_agent-Documented
held-IsOwn = ((refl, refl), tt)

update_health-get_instances_example :
    map (with_status "orders-1" degraded) read
    ≡ map (with_status "orders-1" (read_back degraded)) read
unfolding update_health get_instances agent_registration instance_of map_health_status time_of
    lookup
update_health-get_instances_example =
    update_health-get_instances kept_agent kept_agent-Documented dated "orders" "orders-1" "slow"
      degraded held read (map (with_status "orders-1" degraded) read) held-IsOwn refl refl refl
