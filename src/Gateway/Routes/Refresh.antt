-- ===== src/Gateway/Routes/Refresh.antt =====
-- What a refresh of the route table leaves.
use mathlib.Core.Path.{ap₂}
use Prim.Native.Char.{Char}
use toska_mesh.Prelude.{
  ℕ, String, ◌≡◌, refl, sym, ap, ◌∙◌, subst, ◌≢◌, ◌⊎◌, inl, inr, Option, none, some, List, [], ◌∷◌,
  arith, str_eq, eq_iff, if◌then◌else◌, Bool-cases, Option-cases, length, get_elem?, In,
  get_elem?-In,
}
use toska_mesh.Types.{HealthStatus, unknown, healthy, unhealthy, degraded, status_eq, status_eq_iff}
use toska_mesh.Prelude.Dict.{Dict, lookup, lookup-insert}
use toska_mesh.Prelude.Text.{◌+ₛ◌, to_lower, equal_fold, format_int}
use toska_mesh.Prelude.Result.{Result, ok, err}
use toska_mesh.Consul.{Instance, Agent, Registry, get_instances, get_services}
use toska_mesh.Gateway.Routes.{
  Backend, ServiceRoute, RouteTable, lookup_backend, backend_address, backends_of, add_route,
  add_answer, refresh_service, refresh_services, refresh,
}

-- A backend stands for a healthy instance of the list.
abbrev pub IsBackendOf : List Instance → Backend → Type 0
IsBackendOf instances b =
    (inst : Instance) × In inst instances
    × (inst.status ≡ healthy)
    × (b.service_id ≡ inst.service_id)
    × (b.address ≡ backend_address inst)

backends_of-In :
    (instances : List Instance) (b : Backend)
    → In b (backends_of instances)
    → IsBackendOf instances b
unfolding backends_of
backends_of-In [] b h = absurd h
backends_of-In (inst ∷ rest) b h =
    let below : In b (backends_of rest) → IsBackendOf (inst ∷ rest) b =
      λ k. let (i, m, s, d, t) = backends_of-In rest b k in (i, inr m, s, d, t) in
    elim (Bool-cases (status_eq inst.status healthy)) [
      | inl e ↦ elim (rw (e, backends_of) at h) [
        | inl k ↦ (
          inst,
          inl refl,
          (status_eq_iff inst.status healthy).0 e,
          ap (λ c. c.service_id) k,
          ap (λ c. c.address) k,
        )
        | inr k ↦ below k
      ]
      | inr e ↦ below (rw (e, backends_of) at h)
    ]

-- `scheme://address:port` with the scheme of the metadata, `http` if there is none or it is empty
abbrev scheme_or_http : Option String → String
scheme_or_http none = "http"
scheme_or_http (some String.[]) = "http"
scheme_or_http (some (String.◌∷◌ c s)) = String.◌∷◌ c s

abbrev pub address_of : Instance → String
address_of inst =
    scheme_or_http (lookup "scheme" inst.metadata)
    +ₛ "://"
    +ₛ inst.address
    +ₛ ":"
    +ₛ format_int inst.port 10

abbrev keep_if_healthy : HealthStatus → Backend → List Backend → List Backend
keep_if_healthy healthy b later = b ∷ later
keep_if_healthy unknown b later = later
keep_if_healthy unhealthy b later = later
keep_if_healthy degraded b later = later

-- The healthy instances of the list, in its order, as backends.
abbrev pub healthy_backends : List Instance → List Backend
healthy_backends [] = []
healthy_backends (inst ∷ rest) =
    let later = healthy_backends rest in
    keep_if_healthy inst.status (record { service_id = inst.service_id; address = address_of inst })
      later

not_empty : (c : Char) (s : String) → String.◌∷◌ c s ≢ ""
not_empty c s e = cc

scheme_or_http_lem :
    (o : Option String)
    → (elim o [ none ↦ "http" | some s ↦ if str_eq s "" then "http" else s ]) ≡ scheme_or_http o
scheme_or_http_lem none = refl
scheme_or_http_lem (some String.[]) = refl
scheme_or_http_lem (some (String.◌∷◌ c s)) = elim (Bool-cases (str_eq (String.◌∷◌ c s) "")) [
  | inl e ↦ absurd (not_empty c s ((eq_iff (String.◌∷◌ c s) "").0 e))
  | inr e ↦ ap (λ t. if t then "http" else String.◌∷◌ c s) e
]

backend_address_lem : (inst : Instance) → backend_address inst ≡ address_of inst
unfolding backend_address
backend_address_lem inst =
    ap (λ t. t +ₛ "://" +ₛ inst.address +ₛ ":" +ₛ format_int inst.port 10)
      (scheme_or_http_lem (lookup "scheme" inst.metadata))

kept_if_healthy :
    (s : HealthStatus) (b : Backend) (later : List Backend)
    → (if status_eq s healthy then b ∷ later else later) ≡ keep_if_healthy s b later
kept_if_healthy healthy b later = refl
kept_if_healthy unknown b later = refl
kept_if_healthy unhealthy b later = refl
kept_if_healthy degraded b later = refl

backends_of-healthy_backends :
    (instances : List Instance) → backends_of instances ≡ healthy_backends instances
unfolding backends_of
backends_of-healthy_backends [] = refl
backends_of-healthy_backends (inst ∷ rest) =
    ap₂
      (λ d l.
        if status_eq inst.status healthy
        then record { service_id = inst.service_id; address = d } ∷ l
        else l)
      (backend_address_lem inst) (backends_of-healthy_backends rest)
    ∙ kept_if_healthy inst.status _ _

-- the route with these backends, if there are any
abbrev pub route_with : String → List Backend → Option ServiceRoute
route_with name [] = none
route_with name (b ∷ bs) = some (record { service_name = name; backends = b ∷ bs })

-- The answers of an agent that is not changed by being asked: the route of a service, if it gets one.
abbrev pub route_of : String → Result (List Instance) → Option ServiceRoute
route_of name (err e) = none
route_of name (ok instances) = route_with name (healthy_backends instances)

abbrev pub route_for : (String → Result (List Instance)) → String → Option ServiceRoute
route_for answers name = if equal_fold name "consul" then none else route_of name (answers name)

abbrev pub put_route : Option ServiceRoute → Option ServiceRoute → Option ServiceRoute
put_route none old = old
put_route (some r) old = some r

add_route-lookup :
    (name : String) (backends : List Backend) (key : String) (routes : Dict ServiceRoute)
    → lookup key (add_route name backends routes) ≡ (
        if str_eq (to_lower name) key
        then put_route (route_with name backends) (lookup key routes)
        else lookup key routes)
unfolding add_route
add_route-lookup name [] key routes = ground arith
add_route-lookup name (b ∷ bs) key routes =
    lookup-insert (to_lower name) key (record { service_name = name; backends = b ∷ bs }) routes

add_answer-lookup :
    (name : String) (answer : Result (List Instance)) (key : String) (routes : Dict ServiceRoute)
    → lookup key (add_answer name answer routes) ≡ (
        if str_eq (to_lower name) key
        then put_route (route_of name answer) (lookup key routes)
        else lookup key routes)
unfolding add_answer
add_answer-lookup name (err e) key routes = ground arith
add_answer-lookup name (ok instances) key routes =
    rw (backends_of-healthy_backends instances, add_answer)
      (add_route-lookup name (healthy_backends instances) key routes)

-- The route under a key after the services of the list: that of the last one with this key which gets
-- a route.
abbrev pub last_route :
    (String → Result (List Instance))
    → String
    → List String
    → Option ServiceRoute
    → Option ServiceRoute
last_route answers key [] old = old
last_route answers key (name ∷ rest) old =
    last_route answers key rest
      (if str_eq (to_lower name) key then put_route (route_for answers name) old else old)

module _ (a : Agent) (registry : Registry) (w : a.State) (answers : String → Result (List Instance))
    (steady : (name : String) → get_instances a registry name w ≡ (answers name, w)) where
  refresh_service-lookup :
      (name key : String) (routes : Dict ServiceRoute)
      → ((refresh_service a registry name routes w).1 ≡ w)
        × (lookup key (refresh_service a registry name routes w).0
            ≡ last_route answers key (name ∷ []) (lookup key routes))
  unfolding refresh_service
  refresh_service-lookup name key routes =
      ground (arith, steady name, add_answer-lookup name (answers name) key routes)

  pub refresh_services-lookup :
      (names : List String) (key : String) (routes : Dict ServiceRoute)
      → ((refresh_services a registry names routes w).1 ≡ w)
        × (lookup key (refresh_services a registry names routes w).0
            ≡ last_route answers key names (lookup key routes))
  unfolding refresh_services
  refresh_services-lookup [] key routes = (refl, refl)
  refresh_services-lookup (name ∷ rest) key routes =
      let routes' = (refresh_service a registry name routes w).0 in
      let (same, here) = refresh_service-lookup name key routes in
      let (same', later) = refresh_services-lookup rest key routes' in
      (cc (same, same'), cc (same, later, here))

-- Asked about an agent that answers steadily, `refresh` builds the route table of those answers: the
-- route under a key is that of the last listed service whose lower-case name is the key, which is not
-- Consul and which has a healthy instance, and its backends are the healthy instances of that service, in
-- order, with their IDs and addresses. (The address is `scheme://address:port`; without a scheme in the
-- metadata, or with an empty one, it is `http`.)
pub refresh-lookup :
    (a : Agent) (rt : RouteTable) (w : a.State) (names : List String)
    → (answers : String → Result (List Instance)) → get_services a w ≡ (ok names, w)
    → ((name : String) → get_instances a rt.registry name w ≡ (answers name, w))
    → (key : String) → lookup key (refresh a rt w).0.routes ≡ last_route answers key names none
unfolding refresh
refresh-lookup a rt w names answers listed steady key =
    let answered : (get_services a w).0 ≡ ok names = ap (λ p. p.0) listed in
    let asked : (get_services a w).1 ≡ w = ap (λ p. p.1) listed in
    rw (answered, asked, refresh)
      (unfold lookup in (refresh_services-lookup a rt.registry w answers steady names key []).1)

-- A route under a key is that of a listed service.
abbrev pub IsListed :
    (String → Result (List Instance)) → String → List String → ServiceRoute → Type 0
IsListed answers key names r =
    (name : String) × (instances : List Instance) × In name names
    × (to_lower name ≡ key)
    × (answers name ≡ ok instances)
    × (r.backends ≡ healthy_backends instances)

route_with-backends :
    (name : String) (bs : List Backend) (r : ServiceRoute)
    → route_with name bs ≡ some r
    → r.backends ≡ bs
route_with-backends name [] r h = cc
route_with-backends name (b ∷ bs) r h = cc

route_of-answer :
    (name : String) (answer : Result (List Instance)) (r : ServiceRoute)
    → route_of name answer ≡ some r
    → (instances : List Instance) × (answer ≡ ok instances)
      × (r.backends ≡ healthy_backends instances)
route_of-answer name (err e) r h = cc
route_of-answer name (ok instances) r h =
    (instances, refl, route_with-backends name (healthy_backends instances) r h)

added :
    (answers : String → Result (List Instance)) (key name : String) (rest : List String)
    → (old : Option ServiceRoute) (r : ServiceRoute)
    → (if str_eq (to_lower name) key then put_route (route_for answers name) old else old) ≡ some r
    → IsListed answers key (name ∷ rest) r ⊎ (old ≡ some r)
added answers key name rest old r h = elim (Bool-cases (str_eq (to_lower name) key)) [
  | inr e ↦ inr (rw e at h)
  | inl e ↦ elim (Option-cases (route_for answers name)) [
    | inl n ↦ inr (rw (e, n) at h)
    | inr (q, f) ↦
        let same : some q ≡ some r = rw (e, f) at h in
        let found : route_for answers name ≡ some r = f ∙ same in
        elim (Bool-cases (equal_fold name "consul")) [
          | inl c ↦ let bad : none ≡ some r = rw c at found in cc
          | inr c ↦
              let (instances, answer, backends) =
                route_of-answer name (answers name) r (rw c at found) in
              inl (name, instances, inl refl, (eq_iff _ _).0 e, answer, backends)
        ]
  ]
]

last_route-cases :
    (answers : String → Result (List Instance)) (key : String) (names : List String)
    → (old : Option ServiceRoute) (r : ServiceRoute) → last_route answers key names old ≡ some r
    → IsListed answers key names r ⊎ (old ≡ some r)
last_route-cases answers key [] old r h = inr h
last_route-cases answers key (name ∷ rest) old r h =
    let now = put_route (route_for answers name) old in
    elim (last_route-cases answers key rest (if str_eq (to_lower name) key then now else old) r h) [
      | inl (n, instances, m, same, answer, backends) ↦
          inl (n, instances, inr m, same, answer, backends)
      | inr e ↦ added answers key name rest old r e
    ]

-- A backend that `Lookup` returns after a refresh stands for a healthy instance that the agent
-- reports for a listed service of this name, letter case aside.
pub refresh-lookup_backend :
    (a : Agent) (rt : RouteTable) (w : a.State) (names : List String)
    → (answers : String → Result (List Instance)) → get_services a w ≡ (ok names, w)
    → ((name : String) → get_instances a rt.registry name w ≡ (answers name, w))
    → (random : ℕ → ℕ) (name : String) (b : Backend)
    → lookup_backend random (refresh a rt w).0 name ≡ some b
    → (listed : String) × (instances : List Instance) × In listed names
      × (to_lower listed ≡ to_lower name)
      × (answers listed ≡ ok instances)
      × IsBackendOf instances b
unfolding lookup_backend
refresh-lookup_backend a rt w names answers listed steady random name b h =
    let found = refresh-lookup a rt w names answers listed steady (to_lower name) in
    elim (Option-cases (lookup (to_lower name) (refresh a rt w).0.routes)) [
      | inl n ↦ let bad : none ≡ some b = rw (n, lookup_backend) at h in cc
      | inr (route, e) ↦
          let picked : get_elem? route.backends (random (length route.backends)) ≡ some b =
            rw (e, lookup_backend) at h in
          elim (last_route-cases answers (to_lower name) names none route (sym found ∙ e)) [
            | inl (n, instances, m, same, answer, backends) ↦
                let here = get_elem?-In route.backends _ b picked in
                (
                  n,
                  instances,
                  m,
                  same,
                  answer,
                  backends_of-In instances b (
                      subst (λ l. In b l) (backends ∙ sym (backends_of-healthy_backends instances))
                        here),
                )
            | inr bad ↦ cc
          ]
    ]
