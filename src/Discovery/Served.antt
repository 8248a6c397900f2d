-- ===== src/Discovery/Served.antt =====
-- From the registration of a service to the instances that clients are served, through the registry
-- and an agent that behaves as Consul documents it.
use toska_mesh.Prelude.{
  String, ◌≡◌, refl, sym, ap, ◌≢◌, inl, inr, true, Option, none, some, List, [], ◌∷◌, map, arith,
  eq_refl, Option-cases, All, In,
}
use toska_mesh.Prelude.Int.{wrap32}
use toska_mesh.Prelude.Dict.{Dict, lookup, insert, lookup-insert_self}
use toska_mesh.Prelude.Text.{◌+ₛ◌}
use toska_mesh.Prelude.Net.{Net}
use toska_mesh.Prelude.Result.{Result, ok, err}
use toska_mesh.Messaging.{Broker}
use toska_mesh.Consul
use toska_mesh.Discovery
use toska_mesh.Consul.{
  Instance, Registration, Agent, check_id_of, agent_registration, register, get_instances,
}
use toska_mesh.Consul.Catalog.{Documented}
use toska_mesh.Discovery.Messages.{
  TrackingInfo, RegisterServiceRequest, proto_healthy, ServiceInstance, to_proto_health,
  resolve_address,
}
use toska_mesh.Discovery.Tracking.{add_missing, merge_metadata, get_timestamps, service_instance}
use toska_mesh.Discovery.{Clock, service_id_of, registration_of, new_tracking, Server, announce}
use toska_mesh.Consul.Catalog.Entries.{registered}
use toska_mesh.Consul.Catalog.Reads.{register-get_instances}

-- Metadata that is tracked for an instance as Consul has it adds nothing.
add_missing-present :
    (m rest : Dict String)
    → All (λ (entry : String × String). lookup entry.0 m ≢ none) rest
    → add_missing m rest ≡ m
unfolding add_missing
add_missing-present m [] h = refl
add_missing-present m ((k, v) ∷ rest) h = elim (Option-cases (lookup k m)) [
  | inl n ↦ absurd (h.0 n)
  | inr (old, e) ↦ rw e (add_missing-present m rest h.1)
]

keys-present :
    (m rest : Dict String)
    → ((k : String) → lookup k m ≡ none → lookup k rest ≡ none)
    → All (λ (entry : String × String). lookup entry.0 m ≢ none) rest
unfolding lookup
keys-present m [] h = tt
keys-present m ((k, v) ∷ rest) h = (
  λ n. let bad : some v ≡ none = rw (eq_refl k) at (h k n) in cc,
  keys-present m rest (λ j n. ground (arith, h j n)),
)

In-map : {A B : Type 0} (f : A → B) (x : A) (xs : List A) → In x xs → In (f x) (map f xs)
In-map f x [] h = absurd h
In-map f x (y ∷ xs) (inl e) = inl (ap f e)
In-map f x (y ∷ xs) (inr h) = inr (In-map f x xs h)

abbrev instances_of : Dict TrackingInfo → Result (List Instance) → Result (List ServiceInstance)
instances_of tracking answer = elim answer [
  | err e ↦ err ("get instances: " +ₛ e)
  | ok l ↦ ok (map (service_instance tracking) l)
]

answered :
    (tracking : Dict TrackingInfo) (answer : Result (List Instance))
    (instances : List ServiceInstance)
    → instances_of tracking answer ≡ ok instances
    → (l : List Instance) × (answer ≡ ok l) × (instances ≡ map (service_instance tracking) l)
answered tracking (err e) instances h = absurd (ground arith)
answered tracking (ok l) instances h = (l, refl, ground arith)

-- What clients are served of a registration.
abbrev pub served : Net → Option String → RegisterServiceRequest → Clock → ServiceInstance
served net caller req t = record {
  service_name = req.service_name;
  service_id = service_id_of req t;
  address = resolve_address net caller req.address;
  port = wrap32 req.port;
  status = proto_healthy;
  metadata = req.metadata;
  registered_at = t.now;
  last_health_check = 0;
}

-- The instance that Consul reports for a new registration, as it is served.
service_instance-registered :
    (reg : Registration) (t : Clock) (tracking : Dict TrackingInfo)
    → service_instance
        (insert reg.service_id (new_tracking reg t) tracking)
        (registered reg t.registry_now)
      ≡ record {
        service_name = reg.service_name;
        service_id = reg.service_id;
        address = reg.address;
        port = wrap32 reg.port;
        status = proto_healthy;
        metadata = reg.metadata;
        registered_at = t.now;
        last_health_check = 0;
      }
unfolding service_instance get_timestamps merge_metadata new_tracking to_proto_health
service_instance-registered reg t tracking =
    let found = lookup-insert_self reg.service_id (new_tracking reg t) tracking in
    let present = add_missing-present reg.metadata reg.metadata (keys-present _ _ (λ k n. n)) in
    rw (service_instance, get_timestamps, merge_metadata, found, present) refl

module _ (b : Broker) (a : Agent) (doc : Documented a) where
  register-taken :
      (net : Net) (caller : Option String) (req : RegisterServiceRequest) (t : Clock)
      (s : Server b a)
      → let reg = registration_of net caller req t in
        let taken = Consul.register a s.registry reg t.registry_now s.agent in
        let (s', resp) = Discovery.register b a net caller req t s in
        resp.success ≡ true
        → (taken.0 ≡ none)
          × (s'.registry ≡ taken.1)
          × (s'.agent ≡ taken.2)
          × (s'.tracking ≡ insert reg.service_id (new_tracking reg t) s.tracking)
  unfolding Discovery.register announce
  register-taken net caller req t s h = ground arith

  served_list :
      (s : Server b a) (name : String) (instances : List ServiceInstance)
      → (Discovery.get_instances b a name s).1 ≡ ok instances
      → (l : List Instance) × ((Consul.get_instances a s.registry name s.agent).0 ≡ ok l)
        × (instances ≡ map (service_instance s.tracking) l)
  unfolding Discovery.get_instances
  served_list s name instances h =
      answered s.tracking (Consul.get_instances a s.registry name s.agent).0 instances h

  -- A registration that succeeds, with the agent letting its check pass, is served: the instances of
  -- its name contain one with the address that was resolved for it, its port and metadata, as healthy,
  -- dated at the registration and without a health check. (Assumed of the agent: each service has its
  -- one TTL check and no other of its own, the checks of the node pass at all times, and a read sees
  -- every earlier write. The listing of the instances succeeds.)
  pub get_instances-register :
      (net : Net) (caller : Option String) (req : RegisterServiceRequest) (t : Clock)
      (s : Server b a) (instances : List ServiceInstance)
      → let reg = registration_of net caller req t in
        let (s', resp) = Discovery.register b a net caller req t s in
        resp.success ≡ true
        → (a.pass_ttl
            (check_id_of reg.service_id)
            "Service registered"
            (a.service_register (agent_registration reg) s.agent).1).0
          ≡ none
        → (Discovery.get_instances b a req.service_name s').1 ≡ ok instances
        → In (served net caller req t) instances
  unfolding registration_of
  get_instances-register net caller req t s instances h p g =
      let reg = registration_of net caller req t in
      let s' = (Discovery.register b a net caller req t s).0 in
      let (taken, kept, agent_kept, tracked) = register-taken net caller req t s h in
      let (l, read, same) = served_list s' req.service_name instances g in
      let read' = rw (kept, agent_kept) at read in
      let first =
        register-get_instances a doc s.registry reg t.registry_now s.agent l taken p read' in
      rw (same, tracked, sym (service_instance-registered reg t s.tracking))
        (In-map (service_instance _) (registered reg t.registry_now) l first)
