-- ===== src/Router/Requests.antt =====
-- The request totals that `Stats` reports.
use mathlib.Core.Path.{ap₂}
use toska_mesh.Prelude.{
  String, ◌≡◌, refl, sym, ap, ◌∙◌, inl, inr, Option, none, some, List, [], ◌∷◌, arith, str_eq,
  if◌then◌else◌, Bool-cases,
}
use toska_mesh.Prelude.Int.{ℤ, pos, add64, add64_comm, add64_assoc}
use toska_mesh.Prelude.Dict.{Dict, lookup, insert}
use toska_mesh.Router.Tracking.{
  ServiceStats, new_service_stats, record_instance, Totals, no_totals, add_stats, total_from,
}
use toska_mesh.Router.{Strategy, round_robin, least_connections, Instance, Context}
use toska_mesh.Router.Balancer.{
  LoadBalancer, select_round_robin, select_least_connections, select_weighted_round_robin,
  record_request, dispatch, candidates_of, Fetched, fetched, selected, record_selected,
  select_among, select, stats_of,
}
use toska_mesh.Router.Strategies.{resolve_strategy, Random}

-- The sum of the request counts of a service, entry by entry.
abbrev sum_requests : String → Dict ServiceStats → ℤ
sum_requests name [] = pos 0
sum_requests name ((id, s) ∷ m) =
    let rest = sum_requests name m in
    if str_eq s.service_name name then add64 s.total_requests rest else rest

add64-zero : (a b : ℤ) → add64 (add64 a b) (pos 0) ≡ add64 a b
unfolding add64
add64-zero a b = ground arith

-- totals that are the result of a sum
abbrev IsSum : ℤ → Type 0
IsSum a = add64 a (pos 0) ≡ a

total_from-requests :
    (t : Totals) (name : String) (m : Dict ServiceStats)
    → IsSum t.requests
    → (total_from t name m).requests ≡ add64 t.requests (sum_requests name m)
unfolding total_from
total_from-requests t name [] z = sym z
total_from-requests t name ((id, s) ∷ m) z = elim (Bool-cases (str_eq s.service_name name)) [
  | inl e ↦
      rw (e, total_from)
        (total_from-requests (add_stats t s) name m (add64-zero t.requests s.total_requests)
          ∙ add64_assoc t.requests s.total_requests (sum_requests name m))
  | inr e ↦ rw (e, total_from) (total_from-requests t name m z)
]

sum-insert_new :
    (name id : String) (s : ServiceStats) (m : Dict ServiceStats)
    → lookup id m ≡ none
    → sum_requests name (insert id s m) ≡ (
        if str_eq s.service_name name
        then add64 (sum_requests name m) s.total_requests
        else sum_requests name m)
unfolding lookup insert
sum-insert_new name id s [] h = ground (arith, add64_comm s.total_requests (pos 0))
sum-insert_new name id s ((k, t) ∷ m) h = ground (
  arith,
  sum-insert_new name id s m,
  add64_assoc t.total_requests (sum_requests name m) s.total_requests,
)

sum-insert_old :
    (name id : String) (s s' : ServiceStats) (m : Dict ServiceStats)
    → lookup id m ≡ some s
    → s'.service_name ≡ s.service_name
    → s'.total_requests ≡ add64 s.total_requests (pos 1)
    → sum_requests name (insert id s' m) ≡ (
        if str_eq s.service_name name
        then add64 (sum_requests name m) (pos 1)
        else sum_requests name m)
unfolding lookup insert
sum-insert_old name id s s' [] h e t = cc
sum-insert_old name id s s' ((k, u) ∷ m) h e t =
    let r = sum_requests name m in
    ground (
      arith,
      sum-insert_old name id s s' m,
      add64_assoc u.total_requests (pos 1) r,
      add64_assoc u.total_requests r (pos 1),
      add64_comm (pos 1) r,
    )

-- The service that a request of the instance is counted for: the one under which `Select` first
-- returned an instance with this ID.
abbrev pub owner : Dict ServiceStats → String → Instance → String
owner m name x = elim (lookup x.service_id m) [ none ↦ name | some s ↦ s.service_name ]

sum-record_instance :
    (name svc : String) (id : String) (m : Dict ServiceStats) (o : Option ServiceStats)
    → lookup id m ≡ o
    → let s : ServiceStats = elim o [ none ↦ new_service_stats name | some s ↦ s ] in
      sum_requests svc (insert id (record_instance s id) m) ≡ (
        if str_eq s.service_name svc
        then add64 (sum_requests svc m) (pos 1)
        else sum_requests svc m)
unfolding record_instance new_service_stats add64
sum-record_instance name svc id m none e =
    sum-insert_new svc id (record_instance (new_service_stats name) id) m e
sum-record_instance name svc id m (some s) e =
    sum-insert_old svc id s (record_instance s id) m e refl refl

owner-name :
    (name : String) (o : Option ServiceStats)
    → let s : ServiceStats = elim o [ none ↦ new_service_stats name | some s ↦ s ] in
      s.service_name ≡ elim o [ none ↦ name | some s ↦ s.service_name ]
unfolding new_service_stats
owner-name name none = refl
owner-name name (some s) = refl

sum-record_request :
    (lb : LoadBalancer) (name svc : String) (x : Instance)
    → sum_requests svc (record_request lb name x).stats ≡ (
        if str_eq (owner lb.stats name x) svc
        then add64 (sum_requests svc lb.stats) (pos 1)
        else sum_requests svc lb.stats)
unfolding record_request
sum-record_request lb name svc x =
    sum-record_instance name svc x.service_id lb.stats (lookup x.service_id lb.stats) refl
    ∙ ap
        (λ n.
          if str_eq n svc
          then add64 (sum_requests svc lb.stats) (pos 1)
          else sum_requests svc lb.stats)
        (owner-name name (lookup x.service_id lb.stats))

total_requests-sum :
    (lb : LoadBalancer) (svc : String)
    → (stats_of lb svc).total_requests ≡ add64 (pos 0) (sum_requests svc lb.stats)
unfolding stats_of
total_requests-sum lb svc = total_from-requests no_totals svc lb.stats (unfold add64 in refl)

dispatch-stats :
    (s : Strategy) (lb : LoadBalancer) (name : String) (xs : List Instance) (ctx : Context)
    (r : Random)
    → (dispatch s lb name xs ctx r).0.stats ≡ lb.stats
unfolding dispatch select_least_connections select_round_robin select_weighted_round_robin
dispatch-stats round_robin lb name xs ctx r = refl
dispatch-stats least_connections lb name xs ctx r = refl
dispatch-stats _ lb name xs ctx r = refl

-- the total of a service after `Select` has returned an instance with the given owner
abbrev pub counted : ℤ → String → String → ℤ
counted total owned_by svc = if str_eq owned_by svc then add64 total (pos 1) else total

record_request-total :
    (lb : LoadBalancer) (name svc : String) (x : Instance)
    → (stats_of (record_request lb name x) svc).total_requests
      ≡ counted (stats_of lb svc).total_requests (owner lb.stats name x) svc
record_request-total lb name svc x = ground (
  arith,
  total_requests-sum lb svc,
  total_requests-sum (record_request lb name x) svc,
  sum-record_request lb name svc x,
  add64_assoc (pos 0) (sum_requests svc lb.stats) (pos 1),
)

record_selected-total :
    (lb : LoadBalancer) (d : LoadBalancer × Option Instance) (name svc : String) (x : Instance)
    → d.0.stats ≡ lb.stats
    → (record_selected d name).1 ≡ selected (some x)
    → (stats_of (record_selected d name).0 svc).total_requests
      ≡ counted (stats_of lb svc).total_requests (owner lb.stats name x) svc
record_selected-total lb (lb', none) name svc x e h = cc
record_selected-total lb (lb', some y) name svc x e h =
    let same : y ≡ x = ground arith in
    let total =
      total_requests-sum lb' svc
      ∙ ap (λ m. add64 (pos 0) (sum_requests svc m)) e
      ∙ sym (total_requests-sum lb svc) in
    let owned = ap (λ m. owner m name y) e ∙ ap (owner lb.stats name) same in
    record_request-total lb' name svc y ∙ ap₂ (λ t o. counted t o svc) total owned

among-total :
    (lb : LoadBalancer) (name svc : String) (cs : List Instance) (ctx : Context) (r : Random)
    (x : Instance)
    → (select_among lb name cs ctx r).1 ≡ selected (some x)
    → (stats_of (select_among lb name cs ctx r).0 svc).total_requests
      ≡ counted (stats_of lb svc).total_requests (owner lb.stats name x) svc
unfolding select_among
among-total lb name svc [] ctx r x h = cc
among-total lb name svc (c ∷ cs) ctx r x h =
    let s = resolve_strategy (c ∷ cs) in
    record_selected-total lb (dispatch s lb name (c ∷ cs) ctx r) name svc x
      (dispatch-stats s lb name (c ∷ cs) ctx r) h

-- When `Select` returns an instance, the request total of the service that owns its ID goes up by
-- one, and the total of every other service stays as it was.
pub select-total_requests :
    (provider : String → Fetched) (lb : LoadBalancer) (name svc : String) (ctx : Context)
    (r : Random) (instances : List Instance) (x : Instance)
    → provider name ≡ fetched instances
    → (select provider lb name ctx r).1 ≡ selected (some x)
    → (stats_of (select provider lb name ctx r).0 svc).total_requests
      ≡ counted (stats_of lb svc).total_requests (owner lb.stats name x) svc
unfolding select
select-total_requests provider lb name svc ctx r instances x p h =
    rw (p, select) (among-total lb name svc (candidates_of instances) ctx r x (rw (p, select) at h))
