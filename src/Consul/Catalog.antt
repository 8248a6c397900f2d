-- ===== src/Consul/Catalog.antt =====
-- The registry over an agent that behaves as Consul documents it: what an operation writes, the later
-- ones read back. Each service has the one TTL check that it is registered with; the checks of the
-- node, which Consul lists with those of each service, are taken to pass.
pub mod Entries
pub mod Reads
pub mod Kept
use toska_mesh.Prelude.{
  String, ◌≡◌, refl, ap, inl, inr, Bool, true, false, ◌||◌, none, List, [], ◌∷◌, map, arith, str_eq,
  eq_iff, if◌then◌else◌, Bool-cases, All, any, all,
}
use toska_mesh.Prelude.Dict.{Dict, insert, delete}
use toska_mesh.Prelude.Result.{ok}
use toska_mesh.Types.{HealthStatus, unknown, healthy, unhealthy, degraded}
use toska_mesh.Consul.{
  Instance, AgentServiceRegistration, AgentService, ServiceEntry, Agent, Registry, check_id_of,
  map_health_status, instance_of,
}
use text.Mathlib.TextLemmas.{append_cancel_left}

-- What the agent keeps of a service: how it was registered, and the status of its TTL check.
pub record Service : Type 0 where
  pub registration : AgentServiceRegistration
  pub check : String

-- The service of each TTL check with this ID gets this status.
abbrev pub mark : String → String → Dict Service → Dict Service
mark check_id status [] = []
mark check_id status ((id, s) ∷ d) =
    let rest = mark check_id status d in
    if str_eq s.registration.check_id check_id
    then (id, record s { check = status }) ∷ rest
    else (id, s) ∷ rest

abbrev pub agent_service_of : AgentServiceRegistration → AgentService
agent_service_of reg = record {
  id = reg.id;
  service = reg.name;
  address = reg.address;
  port = reg.port;
  meta = reg.meta;
}

-- The services of one name, as `Health().Service` lists them.
abbrev pub entries : List String → String → Dict Service → List ServiceEntry
entries node name [] = []
entries node name ((id, s) ∷ d) =
    let rest = entries node name d in
    if str_eq s.registration.name name
    then record { service = agent_service_of s.registration; checks = s.check ∷ node } ∷ rest
    else rest

-- The calls of the agent that the program makes, as they are documented. A TTL check starts critical. A
-- read sees every earlier write, and the checks of the node pass at all times.
pub record Documented (a : Agent) : Type 0 where
  pub services : a.State → Dict Service
  pub node_checks : List String
  pub node_passes : All (λ c. c ≡ "passing") node_checks
  pub registers :
      (reg : AgentServiceRegistration) (w : a.State)
      → (a.service_register reg w).0 ≡ none
      → services (a.service_register reg w).1
        ≡ insert reg.id (record { registration = reg; check = "critical" }) (services w)
  pub deregisters :
      (id : String) (w : a.State)
      → (a.service_deregister id w).0 ≡ none
      → services (a.service_deregister id w).1 ≡ delete id (services w)
  pub passes :
      (check_id output : String) (w : a.State)
      → (a.pass_ttl check_id output w).0 ≡ none
      → services (a.pass_ttl check_id output w).1 ≡ mark check_id "passing" (services w)
  pub fails :
      (check_id output : String) (w : a.State)
      → (a.fail_ttl check_id output w).0 ≡ none
      → services (a.fail_ttl check_id output w).1 ≡ mark check_id "critical" (services w)
  pub warns :
      (check_id output : String) (w : a.State)
      → (a.warn_ttl check_id output w).0 ≡ none
      → services (a.warn_ttl check_id output w).1 ≡ mark check_id "warning" (services w)
  pub lists :
      (name : String) (w : a.State) (answer : List ServiceEntry)
      → (a.health_service name w).0 ≡ ok answer
      → answer ≡ entries node_checks name (services w)

-- Every service was registered by this program: its check has the ID that `Register` gives it.
abbrev pub IsOwn : String × Service → Type 0
IsOwn (id, s) = (s.registration.id ≡ id) × (s.registration.check_id ≡ check_id_of id)

-- what `UpdateHealth` writes, and what `GetInstances` then reads
abbrev pub text_of : HealthStatus → String
text_of healthy = "passing"
text_of unhealthy = "critical"
text_of degraded = "warning"
text_of unknown = "passing"

abbrev pub read_back : HealthStatus → HealthStatus
read_back unknown = healthy
read_back status = status

abbrev pub with_status : String → HealthStatus → Instance → Instance
with_status id status inst =
    if str_eq inst.service_id id then record inst { status = status } else inst

no_other :
    (p : String → Bool) (cs : List String)
    → p "passing" ≡ false
    → All (λ c. c ≡ "passing") cs
    → any p cs ≡ false
no_other p [] h a = refl
no_other p (c ∷ cs) h a = ground (arith, no_other p cs h a.1)

all_pass :
    (cs : List String) → All (λ c. c ≡ "passing") cs → all (λ c. str_eq c "passing") cs ≡ true
all_pass [] a = refl
all_pass (c ∷ cs) a = ground (arith, eq_iff c "passing", all_pass cs a.1)

pub status-text_of :
    (status : HealthStatus) (node : List String)
    → All (λ c. c ≡ "passing") node
    → map_health_status (text_of status ∷ node) ≡ read_back status
unfolding map_health_status
status-text_of unknown node a = ground (
  arith,
  no_other (λ c. str_eq c "critical" || str_eq c "maintenance") node refl a,
  no_other (λ c. str_eq c "warning") node refl a,
  all_pass node a,
)
status-text_of healthy node a = ground (
  arith,
  no_other (λ c. str_eq c "critical" || str_eq c "maintenance") node refl a,
  no_other (λ c. str_eq c "warning") node refl a,
  all_pass node a,
)
status-text_of unhealthy node a = ground (
  arith,
  no_other (λ c. str_eq c "critical" || str_eq c "maintenance") node refl a,
  no_other (λ c. str_eq c "warning") node refl a,
  all_pass node a,
)
status-text_of degraded node a = ground (
  arith,
  no_other (λ c. str_eq c "critical" || str_eq c "maintenance") node refl a,
  no_other (λ c. str_eq c "warning") node refl a,
  all_pass node a,
)

check_id_of_injective : (s t : String) → check_id_of s ≡ check_id_of t → s ≡ t
check_id_of_injective s t e = append_cancel_left "service:" s t e

same_check : (s t : String) → str_eq (check_id_of s) (check_id_of t) ≡ str_eq s t
same_check s t = ground (
  arith,
  eq_iff s t,
  eq_iff (check_id_of s) (check_id_of t),
  check_id_of_injective s t,
  λ (e : s ≡ t). ap check_id_of e,
)

pub entries-mark :
    (r : Registry) (node : List String) (name id : String) (status : HealthStatus)
    (d : Dict Service)
    → All (λ c. c ≡ "passing") node
    → All IsOwn d
    → map (instance_of r) (entries node name (mark (check_id_of id) (text_of status) d))
      ≡ map (with_status id (read_back status)) (map (instance_of r) (entries node name d))
unfolding instance_of
entries-mark r node name id status [] a own = refl
entries-mark r node name id status ((key, s) ∷ d) a ((same, check), own) =
    let rest = entries-mark r node name id status d a own in
    let tests : str_eq s.registration.check_id (check_id_of id) ≡ str_eq s.registration.id id =
      rw (check, same) (same_check key id) in
    let status_read = status-text_of status node a in
    elim (Bool-cases (str_eq s.registration.id id)) [
      | inl h ↦ elim (Bool-cases (str_eq s.registration.name name)) [
        | inl n ↦ rw (tests, h, n, status_read, rest, h) refl
        | inr n ↦ rw (tests, h, n, rest) refl
      ]
      | inr h ↦ elim (Bool-cases (str_eq s.registration.name name)) [
        | inl n ↦ rw (tests, h, n, rest, h) refl
        | inr n ↦ rw (tests, h, n, rest) refl
      ]
    ]
