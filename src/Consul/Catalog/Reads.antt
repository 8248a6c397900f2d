-- ===== src/Consul/Catalog/Reads.antt =====
-- What `GetInstances` reads after `Register`, `UpdateHealth` and `Deregister`.
use toska_mesh.Prelude.{
  ℕ, String, ◌≡◌, refl, ap, ◌∙◌, subst, false, not, none, List, map, arith, str_eq, eq_refl, keep,
  All, In,
}
use toska_mesh.Prelude.Dict.{insert}
use toska_mesh.Prelude.Result.{ok}
use toska_mesh.Types.{HealthStatus, unknown, healthy, unhealthy, degraded}
use toska_mesh.Consul.{
  Instance, Registration, Agent, Registry, check_id_of, agent_registration, time_of, instance_of,
  register, deregister, get_instances, update_health,
}
use toska_mesh.Consul.Catalog.Entries.{
  insert-IsOwn, delete-IsOwn, mark-IsOwn, registered, fresh_service, In-entries, entries-delete,
  listed,
}
use toska_mesh.Consul.Catalog.{
  mark, entries, Documented, IsOwn, text_of, read_back, with_status, entries-mark,
}
use toska_mesh.Consul.Ttl.{register-time_of, deregister-time_of}

module _ (a : Agent) (doc : Documented a) where
  get_instances-entries :
      (r : Registry) (name : String) (w : a.State) (answer : List Instance)
      → (get_instances a r name w).0 ≡ ok answer
      → answer ≡ map (instance_of r) (entries doc.node_checks name (doc.services w))
  unfolding get_instances
  get_instances-entries r name w answer h =
      let (es, f, e) = listed r (a.health_service name w).0 answer h in
      e ∙ ap (map (instance_of r)) (doc.lists name w es f)

  update_health-services :
      (id output : String) (status : HealthStatus) (w : a.State)
      → (update_health a id status output w).0 ≡ none
      → doc.services (update_health a id status output w).1
        ≡ mark (check_id_of id) (text_of status) (doc.services w)
  unfolding update_health
  update_health-services id output unknown w h = doc.passes (check_id_of id) output w h
  update_health-services id output healthy w h = doc.passes (check_id_of id) output w h
  update_health-services id output unhealthy w h = doc.fails (check_id_of id) output w h
  update_health-services id output degraded w h = doc.warns (check_id_of id) output w h

  -- A health status that `UpdateHealth` could write is what `GetInstances` reads back for this
  -- service, where an unknown one is read as healthy; all else that it reads is as before. (Assumed of
  -- the agent: each service has its one TTL check and no other of its own, the checks of the node pass
  -- at all times, and a read sees every earlier write. Every service in it was registered by this
  -- program, so that its check has the ID that `Register` gives it. Both reads and the write succeed.)
  pub update_health-get_instances :
      (r : Registry) (name id output : String) (status : HealthStatus) (w : a.State)
      (before after : List Instance)
      → All IsOwn (doc.services w)
      → (get_instances a r name w).0 ≡ ok before
      → (update_health a id status output w).0 ≡ none
      → (get_instances a r name (update_health a id status output w).1).0 ≡ ok after
      → after ≡ map (with_status id (read_back status)) before
  update_health-get_instances r name id output status w before after own b u h =
      rw
        (
          get_instances-entries r name _ after h,
          get_instances-entries r name w before b,
          update_health-services id output status w u,
        )
        (entries-mark r doc.node_checks name id status (doc.services w) doc.node_passes own)

  -- `Register`, once the agent has taken the service
  register-taken :
      (r : Registry) (reg : Registration) (now : ℕ) (w : a.State)
      → (register a r reg now w).0 ≡ none
      → ((a.service_register (agent_registration reg) w).0 ≡ none)
        × ((register a r reg now w).2
            ≡ (a.pass_ttl
                (check_id_of reg.service_id)
                "Service registered"
                (a.service_register (agent_registration reg) w).1).1)
  unfolding register
  register-taken r reg now w g = ground arith

  -- `Deregister`, once the agent has dropped the service
  deregister-taken :
      (r : Registry) (id : String) (w : a.State)
      → (deregister a r id w).0 ≡ none
      → ((a.service_deregister id w).0 ≡ none)
        × ((deregister a r id w).2 ≡ (a.service_deregister id w).1)
  unfolding deregister
  deregister-taken r id w g = ground arith

  -- A service that the agent registers, and whose check it lets pass, is read back under its name with
  -- the address, port and metadata of the registration, as healthy, and dated when it was registered.
  pub register-get_instances :
      (r : Registry) (reg : Registration) (now : ℕ) (w : a.State) (after : List Instance)
      → (register a r reg now w).0 ≡ none
      → (a.pass_ttl
          (check_id_of reg.service_id)
          "Service registered"
          (a.service_register (agent_registration reg) w).1).0
        ≡ none
      → (get_instances a (register a r reg now w).1 reg.service_name (register a r reg now w).2).0
        ≡ ok after
      → In (registered reg now) after
  unfolding agent_registration
  register-get_instances r reg now w after g p h =
      let r' = (register a r reg now w).1 in
      let taken = register-taken r reg now w g in
      let passed = doc.passes (check_id_of reg.service_id) "Service registered" _ p in
      let dated : time_of r' reg.service_id ≡ now =
        rw (register-time_of a r reg now w reg.service_id, g, eq_refl reg.service_id) refl in
      let entry = doc.registers (agent_registration reg) w taken.0 in
      rw (get_instances-entries r' reg.service_name _ after h, taken.1, passed, entry)
        (subst
          (λ t. In (registered reg t) (
            map (instance_of r') (
              entries doc.node_checks reg.service_name (
                mark (check_id_of reg.service_id) "passing"
                  (insert reg.service_id (fresh_service reg) (doc.services w))))))
          dated (In-entries r' reg doc.node_checks (doc.services w) doc.node_passes))

  -- After a service is deregistered, the instances of a name are those that were read before, without
  -- the ones of this ID.
  pub deregister-get_instances :
      (r : Registry) (name id : String) (w : a.State) (before after : List Instance)
      → All IsOwn (doc.services w)
      → (get_instances a r name w).0 ≡ ok before
      → (deregister a r id w).0 ≡ none
      → (get_instances a (deregister a r id w).1 name (deregister a r id w).2).0 ≡ ok after
      → after ≡ keep (λ inst. not (str_eq inst.service_id id)) before
  deregister-get_instances r name id w before after own b g h =
      let r' = (deregister a r id w).1 in
      let others : (key : String) → str_eq id key ≡ false → time_of r' key ≡ time_of r key =
        λ key n. rw (deregister-time_of a r id w key, g, n) refl in
      let taken = deregister-taken r id w g in
      rw
        (
          get_instances-entries r' name _ after h,
          get_instances-entries r name w before b,
          taken.1,
          doc.deregisters id w taken.0,
        )
        (entries-delete r r' doc.node_checks name id (doc.services w) others own)

  -- `UpdateHealth`, `Deregister` and `Register` leave only services that this program registered.
  pub update_health-IsOwn :
      (id output : String) (status : HealthStatus) (w : a.State)
      → All IsOwn (doc.services w)
      → (update_health a id status output w).0 ≡ none
      → All IsOwn (doc.services (update_health a id status output w).1)
  update_health-IsOwn id output status w own u =
      rw (update_health-services id output status w u) (mark-IsOwn _ _ (doc.services w) own)

  pub deregister-IsOwn :
      (r : Registry) (id : String) (w : a.State)
      → All IsOwn (doc.services w)
      → (deregister a r id w).0 ≡ none
      → All IsOwn (doc.services (deregister a r id w).2)
  deregister-IsOwn r id w own g =
      let taken = deregister-taken r id w g in
      rw (taken.1, doc.deregisters id w taken.0) (delete-IsOwn id (doc.services w) own)

  pub register-IsOwn :
      (r : Registry) (reg : Registration) (now : ℕ) (w : a.State)
      → All IsOwn (doc.services w)
      → (register a r reg now w).0 ≡ none
      → (a.pass_ttl
          (check_id_of reg.service_id)
          "Service registered"
          (a.service_register (agent_registration reg) w).1).0
        ≡ none
      → All IsOwn (doc.services (register a r reg now w).2)
  unfolding agent_registration
  register-IsOwn r reg now w own g p =
      let taken = register-taken r reg now w g in
      let passed = doc.passes (check_id_of reg.service_id) "Service registered" _ p in
      rw (taken.1, passed, doc.registers (agent_registration reg) w taken.0)
        (mark-IsOwn _ _ _ (insert-IsOwn reg.service_id _ (doc.services w) (refl, refl) own))
