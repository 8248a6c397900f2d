-- ===== src/Consul/Catalog/Kept.antt =====
-- An agent that behaves as Consul documents it can be built: a map of services.
use toska_mesh.Prelude.{refl, none, [], arith}
use toska_mesh.Prelude.Dict.{Dict, insert, delete}
use toska_mesh.Prelude.Result.{ok}
use toska_mesh.Consul.{Agent}
use toska_mesh.Consul.Catalog.{Service, mark, entries, Documented}

-- An agent that takes every call and keeps what it is told.
abbrev pub kept_agent : Agent
kept_agent = record {
  State = Dict Service;
  service_register =
      λ reg d. (none, insert reg.id (record { registration = reg; check = "critical" }) d);
  service_deregister = λ id d. (none, delete id d);
  pass_ttl = λ check_id output d. (none, mark check_id "passing" d);
  fail_ttl = λ check_id output d. (none, mark check_id "critical" d);
  warn_ttl = λ check_id output d. (none, mark check_id "warning" d);
  health_service = λ name d. (ok (entries [] name d), d);
  catalog_services = λ d. (ok [], d);
  agent_service = λ id d. (ok none, d);
}

unfoldable pub kept_agent-Documented : Documented kept_agent
kept_agent-Documented = record {
  services = λ d. d;
  node_checks = [];
  node_passes = tt;
  registers = λ reg d h. refl;
  deregisters = λ id d h. refl;
  passes = λ check_id output d h. refl;
  fails = λ check_id output d h. refl;
  warns = λ check_id output d h. refl;
  lists = λ name d answer h. ground (arith, h);
}
