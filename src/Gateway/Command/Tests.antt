-- ===== src/Gateway/Command/Tests.antt =====
-- A run of the gateway at concrete inputs.
use toska_mesh.Prelude.{none, [], ◌∷◌}
use toska_mesh.Gateway.Chain.Tests.{getenv, lib, request, arrival}
use toska_mesh.Gateway.Command.{GatewayMachine}

-- one request
abbrev machine : GatewayMachine
machine = record {
  getenv = getenv;
  new_client = λ addr. none;
  library = lib;
  requests = (arrival 10, request) ∷ [];
  serve_failure = none;
}
