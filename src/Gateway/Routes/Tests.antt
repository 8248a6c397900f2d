-- ===== src/Gateway/Routes/Tests.antt =====
-- The route table at concrete inputs.
use toska_mesh.Prelude.{String, ◌≡◌, refl, none, some, List, [], ◌∷◌, arith}
use toska_mesh.Prelude.Int.{pos}
use toska_mesh.Prelude.Dict.{lookup, insert}
use toska_mesh.Prelude.Text.{◌+ₛ◌, to_lower, equal_fold, strip_prefix, format_int, cut_before}
use toska_mesh.Prelude.Result.{Result, ok}
use toska_mesh.Consul.{
  Instance, ServiceEntry, Agent, Registry, map_health_status, instance_of, get_instances,
  get_services,
}
use toska_mesh.Gateway.Routes.{
  Backend, RouteTable, lookup_backend, backend_address, backends_of, add_route, add_answer,
  refresh_service, refresh_services, refresh, split_service, parse_service_from_path,
}
use toska_mesh.Gateway.Routes.Paths.{parse_service_from_path-append}
use toska_mesh.Gateway.Routes.Refresh.{last_route, refresh-lookup}

abbrev entry : ServiceEntry
entry = record {
  service = record {
    id = "orders-1";
    service = "Orders";
    address = "10.0.0.1";
    port = pos 8080;
    meta = [];
  };
  checks = "passing" ∷ [];
}

-- an agent with one service, and no memory
abbrev one_service : Agent
one_service = record {
  State = Unit;
  service_register = λ reg s. (none, s);
  service_deregister = λ id s. (none, s);
  pass_ttl = λ id output s. (none, s);
  fail_ttl = λ id output s. (none, s);
  warn_ttl = λ id output s. (none, s);
  health_service = λ name s. (ok (entry ∷ []), s);
  catalog_services = λ s. (ok ("Orders" ∷ []), s);
  agent_service = λ id s. (ok none, s);
}

abbrev registry : Registry
registry = record { registration_times = [] }

abbrev table : RouteTable
table = record {
  registry = registry;
  config = record { route_prefix = "/api"; refresh_interval = pos 30 };
  routes = [];
}

abbrev answers : String → Result (List Instance)
answers name = ok (instance_of registry entry ∷ [])

listed : get_services one_service tt ≡ (ok ("Orders" ∷ []), tt)
unfolding get_services
listed = refl

steady : (name : String) → get_instances one_service registry name tt ≡ (answers name, tt)
unfolding get_instances
steady name = refl

refresh-lookup_example :
    lookup "orders" (refresh one_service table tt).0.routes
    ≡ last_route answers "orders" ("Orders" ∷ []) none
refresh-lookup_example =
    refresh-lookup one_service table tt ("Orders" ∷ []) answers listed steady "orders"

abbrev backend : Backend
backend = record { service_id = "orders-1"; address = "http://10.0.0.1:8080" }

found : lookup_backend (λ n. 0) (refresh one_service table tt).0 "orders" ≡ some backend
unfolding lookup_backend refresh refresh_services refresh_service add_answer add_route backends_of
    backend_address get_services get_instances lookup insert to_lower equal_fold instance_of
    format_int map_health_status
found = refl

parsed : parse_service_from_path "/api/" "/api/orders/7" ≡ some ("orders", "/7")
unfolding parse_service_from_path split_service strip_prefix cut_before
parsed = refl

parse_service_from_path-append_example :
    parse_service_from_path "/api/" ("/api/" +ₛ ("ab" +ₛ ("/" +ₛ "7"))) ≡ some ("ab", "/" +ₛ "7")
parse_service_from_path-append_example =
    parse_service_from_path-append "/api/" "ab" "7" (ground arith)
