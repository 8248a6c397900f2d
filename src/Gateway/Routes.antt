-- ===== src/Gateway/Routes.antt =====
-- internal/gateway/routes.go and config.go: the route table, and the paths of requests.
-- `refresh` builds a new map and stores it under the lock in one step. `rand.IntN` is an argument.
pub mod Paths
pub mod Refresh
mod Tests
use toska_mesh.Prelude.{
  ℕ, String, Option, none, some, List, [], ◌∷◌, map, str_eq, if◌then◌else◌, length, get_elem?, null,
}
use toska_mesh.Prelude.Dict.{Dict, lookup, insert}
use toska_mesh.Prelude.Text.{
  ◌+ₛ◌, to_lower, equal_fold, strip_prefix, has_prefix, format_int, ends_with, cut_before,
}
use toska_mesh.Prelude.Result.{Result, ok, err}
use toska_mesh.Types.{healthy, status_eq}
use toska_mesh.Consul.{Instance, Agent, Registry, get_instances, get_services}
use toska_mesh.Prelude.Int.{ℤ}

pub record RoutingConfig : Type 0 where
  pub route_prefix : String
  pub refresh_interval : ℤ

pub record Backend : Type 0 where
  pub service_id : String
  pub address : String

pub record ServiceRoute : Type 0 where
  pub service_name : String
  pub backends : List Backend

pub record RouteTable : Type 0 where
  pub registry : Registry
  pub config : RoutingConfig
  pub routes : Dict ServiceRoute

-- `NewRouteTable`
unfoldable pub new_route_table : Registry → RoutingConfig → RouteTable
new_route_table registry config = record { registry = registry; config = config; routes = [] }

-- `Lookup`; `random n` is what `rand.IntN(n)` gives
unfoldable pub lookup_backend : (ℕ → ℕ) → RouteTable → String → Option Backend
lookup_backend random rt name = elim (lookup (to_lower name) rt.routes) [
  | none ↦ none
  | some route ↦ get_elem? route.backends (random (length route.backends))
]

-- `Services`, in one order of the map's iteration
unfoldable pub services : RouteTable → List String
services rt = map (λ (key, route). route.service_name) rt.routes

-- `scheme://address:port`
unfoldable pub backend_address : Instance → String
backend_address inst =
    let scheme : String = elim (lookup "scheme" inst.metadata) [
      | none ↦ "http"
      | some s ↦ if str_eq s "" then "http" else s
    ] in
    scheme +ₛ "://" +ₛ inst.address +ₛ ":" +ₛ format_int inst.port 10

-- the inner loop of `refresh`
unfoldable pub backends_of : List Instance → List Backend
backends_of [] = []
backends_of (inst ∷ rest) =
    let later = backends_of rest in
    if status_eq inst.status healthy
    then record { service_id = inst.service_id; address = backend_address inst } ∷ later
    else later

-- the end of one round of the outer loop: a service with no backend gets no route
unfoldable pub add_route : String → List Backend → Dict ServiceRoute → Dict ServiceRoute
add_route name backends routes =
    if null backends
    then routes
    else insert (to_lower name) (record { service_name = name; backends = backends }) routes

-- the rest of that round, on the answer of `GetInstances`
unfoldable pub add_answer : String → Result (List Instance) → Dict ServiceRoute → Dict ServiceRoute
add_answer name (err e) routes = routes
add_answer name (ok instances) routes = add_route name (backends_of instances) routes

-- The registry's agent.
module _ (a : Agent) where
  -- one round of the outer loop of `refresh`
  unfoldable pub refresh_service :
      Registry → String → Dict ServiceRoute → a.State → Dict ServiceRoute × a.State
  refresh_service registry name routes w =
      let (answer, w') = get_instances a registry name w in
      if equal_fold name "consul" then (routes, w) else (add_answer name answer routes, w')

  -- the outer loop of `refresh`
  unfoldable pub refresh_services :
      Registry → List String → Dict ServiceRoute → a.State → Dict ServiceRoute × a.State
  refresh_services registry [] routes w = (routes, w)
  refresh_services registry (name ∷ rest) routes w =
      let (routes', w') = refresh_service registry name routes w in
      refresh_services registry rest routes' w'

  -- `refresh`
  unfoldable pub refresh : RouteTable → a.State → RouteTable × a.State
  refresh rt w =
      let (answer, w') = get_services a w in
      elim answer [
        | err e ↦ (rt, w')
        | ok names ↦
            let (routes, w'') = refresh_services rt.registry names [] w' in
            (record rt { routes = routes }, w'')
      ]

abbrev pub with_slash_before : String → String
with_slash_before p = if has_prefix p "/" then p else "/" +ₛ p

abbrev pub with_slash_after : String → String
with_slash_after p = if ends_with b'/' p then p else p +ₛ "/"

-- `normalizePrefix`
unfoldable pub normalize_prefix : String → String
normalize_prefix p = if str_eq p "" then "/" else with_slash_after (with_slash_before p)

-- `Prefix`
unfoldable pub table_prefix : RouteTable → String
table_prefix rt = normalize_prefix rt.config.route_prefix

-- the split of `ParseServiceFromPath` behind the prefix
unfoldable pub split_service : String → Option (String × String)
split_service rest =
    if str_eq rest ""
    then none
    else elim (cut_before b'/' rest) [ none ↦ some (rest, "/") | some parts ↦ some parts ]

-- `ParseServiceFromPath`; `none` where `ok` is false
unfoldable pub parse_service_from_path : String → String → Option (String × String)
parse_service_from_path prefix path = elim (strip_prefix prefix path) [
  | none ↦ none
  | some rest ↦ split_service rest
]
