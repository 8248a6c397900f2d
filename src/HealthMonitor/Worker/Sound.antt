-- ===== src/HealthMonitor/Worker/Sound.antt =====
-- What holds of the worker at all times.
use toska_mesh.Prelude.{
  String, ◌≡◌, inl, inr, List, [], ◌∷◌, arith, str_eq, if◌then◌else◌, Bool-cases, any,
}
use toska_mesh.Prelude.Int.{pos, ◌<ℤ◌}
use toska_mesh.Prelude.Dict.{
  lookup-insert, lookup-delete, HasDistinctKeys, insert-HasDistinctKeys, delete-HasDistinctKeys,
}
use toska_mesh.Messaging.{Broker, Publisher}
use toska_mesh.Consul.{Instance, Agent, get_instances}
use toska_mesh.HealthMonitor.Breaker.{
  CircuitBreaker, allow, Call, call_allow, call_failure, call_success, step, run,
}
use toska_mesh.HealthMonitor.Breaker.Invariant.{IsValid, run-positive, run-IsValid}
use toska_mesh.HealthMonitor.Probe.{Surroundings, Outcome, run_probes}
use toska_mesh.HealthMonitor.Worker.{
  Worker, get_breaker, store_breaker, entry_of, is_transition, refusal, update_status,
  probe_allowed, probe_instance, probe_list, evict_stale, Cycled, probe_service, probe_services,
  probe_cycle,
}
use toska_mesh.HealthMonitor.Worker.Cycle.{IsKeyed, IsKeyed-update}
use toska_mesh.Prelude.Result.{Result, ok, err}
use toska_mesh.Types.{healthy, status_eq}
use toska_mesh.HealthMonitor.Cache.{MonitoredInstance, update, get, remove, previous_status}

-- Every breaker is valid, and can trip; the cache has each result under its own ID, and no ID twice.
pub record IsSound (w : Worker) : Type 0 where
  pub breakers_valid : (id : String) → IsValid (get_breaker w id)
  pub breakers_trip : (id : String) → pos 0 <ℤ (get_breaker w id).failure_threshold
  pub keyed : IsKeyed w.cache
  pub distinct : HasDistinctKeys w.cache.instances

get_breaker-store :
    (w : Worker) (id j : String) (cb : CircuitBreaker)
    → get_breaker (store_breaker w id cb) j ≡ (if str_eq id j then cb else get_breaker w j)
unfolding get_breaker
get_breaker-store w id j cb = ground (arith, lookup-insert id j cb w.breakers)

store-IsSound :
    (w : Worker) (id : String) (cb : CircuitBreaker)
    → IsSound w
    → IsValid cb
    → pos 0 <ℤ cb.failure_threshold
    → IsSound (store_breaker w id cb)
store-IsSound w id cb s v t = record {
  breakers_valid = λ j. elim (Bool-cases (str_eq id j)) [
    | inl h ↦ rw (get_breaker-store w id j cb, h) v
    | inr h ↦ rw (get_breaker-store w id j cb, h) (s.breakers_valid j)
  ];
  breakers_trip = λ j. elim (Bool-cases (str_eq id j)) [
    | inl h ↦ rw (get_breaker-store w id j cb, h) t
    | inr h ↦ rw (get_breaker-store w id j cb, h) (s.breakers_trip j)
  ];
  keyed = s.keyed;
  distinct = s.distinct;
}

-- The breaker that is stored is some calls further.
calls-IsSound :
    (w : Worker) (id : String) (c : Call) (cs : List Call)
    → IsSound w
    → IsSound (store_breaker w id (run (step (get_breaker w id) c) cs))
unfolding run
calls-IsSound w id c cs s =
    let cb = get_breaker w id in
    let v = s.breakers_valid id in
    let t = s.breakers_trip id in
    store-IsSound w id _ s (run-IsValid cb (c ∷ cs) v t) (run-positive cb (c ∷ cs) t)

update-IsSound :
    (w : Worker) (p : Publisher) (env : Surroundings) (inst : Instance) (o : Outcome)
    → IsSound w
    → IsSound (record w { publisher = p; cache = update w.cache (entry_of env inst o) })
unfolding get_breaker update
update-IsSound w p env inst o s = record {
  breakers_valid = s.breakers_valid;
  breakers_trip = s.breakers_trip;
  keyed = IsKeyed-update env inst o w.cache s.keyed;
  distinct = insert-HasDistinctKeys _ _ w.cache.instances s.distinct;
}

remove-IsSound :
    (w : Worker) (id : String) → IsSound w → IsSound (record w { cache = remove w.cache id })
unfolding get_breaker remove get
remove-IsSound w id s = record {
  breakers_valid = s.breakers_valid;
  breakers_trip = s.breakers_trip;
  keyed = λ j m e. ground (arith, lookup-delete id j w.cache.instances, s.keyed j m);
  distinct = delete-HasDistinctKeys id w.cache.instances s.distinct;
}

evict_stale-IsSound :
    (live : List String) (l : List MonitoredInstance) (w : Worker)
    → IsSound w
    → IsSound (record w { cache = evict_stale live l w.cache })
unfolding evict_stale
evict_stale-IsSound live [] w s = s
evict_stale-IsSound live (m ∷ l) w s = elim (Bool-cases (any (λ id. str_eq id m.service_id) live)) [
  | inl h ↦ rw (evict_stale, h) (evict_stale-IsSound live l w s)
  | inr h ↦
      rw (evict_stale, h)
        (evict_stale-IsSound live l (record w { cache = remove w.cache m.service_id })
          (remove-IsSound w m.service_id s))
]

module _ (b : Broker) where
  update_status-IsSound :
      (env : Surroundings) (inst : Instance) (o : Outcome) (w : Worker) (s : b.State)
      → IsSound w
      → IsSound (update_status b env inst o w s).0
  unfolding update_status
  update_status-IsSound env inst o w s h =
      elim (Bool-cases (is_transition (previous_status w.cache inst.service_id) o.status)) [
        | inl e ↦ rw (update_status, e) (update-IsSound w _ env inst o h)
        | inr e ↦ rw (update_status, e) (update-IsSound w w.publisher env inst o h)
      ]

  probe_instance-IsSound :
      (env : Surroundings) (inst : Instance) (w : Worker) (s : b.State)
      → IsSound w
      → IsSound (probe_instance b env inst w s).0
  unfolding probe_instance probe_allowed run step
  probe_instance-IsSound env inst w s h =
      let id = inst.service_id in
      let first = call_allow env.allow_time in
      let o = run_probes w.config env inst in
      elim (Bool-cases (allow (get_breaker w id) env.allow_time).1) [
        | inl e ↦ elim (Bool-cases (status_eq o.status healthy)) [
          | inl g ↦
              rw (probe_instance, e, g)
                (update_status-IsSound env inst o _ s
                  (calls-IsSound w id first (call_success ∷ []) h))
          | inr g ↦
              rw (probe_instance, e, g)
                (update_status-IsSound env inst o _ s
                  (calls-IsSound w id first (call_failure env.outcome_time ∷ []) h))
        ]
        | inr e ↦
            rw (probe_instance, e)
              (update_status-IsSound env inst refusal _ s (calls-IsSound w id first [] h))
      ]

  probe_list-IsSound :
      (env : Instance → Surroundings) (insts : List Instance) (w : Worker) (s : b.State)
      → IsSound w
      → IsSound (probe_list b env insts w s).0
  unfolding probe_list
  probe_list-IsSound env [] w s h = h
  probe_list-IsSound env (inst ∷ rest) w s h =
      probe_list-IsSound env rest _ _ (probe_instance-IsSound (env inst) inst w s h)

module _ (b : Broker) (a : Agent) where
  probe_service-IsSound :
      (env : Instance → Surroundings) (r : Result (List Instance)) (c : Cycled b a) (t : a.State)
      → IsSound c.worker
      → IsSound (probe_service b a env c t r).worker
  unfolding probe_service
  probe_service-IsSound env (err e) c t h = h
  probe_service-IsSound env (ok insts) c t h = probe_list-IsSound b env insts c.worker c.broker h

  probe_services-IsSound :
      (env : Instance → Surroundings) (names : List String) (c : Cycled b a)
      → IsSound c.worker
      → IsSound (probe_services b a env names c).worker
  unfolding probe_services probe_service
  probe_services-IsSound env [] c h = h
  probe_services-IsSound env (name ∷ rest) c h =
      let (answer, t) = get_instances a c.worker.registry name c.agent in
      probe_services-IsSound env rest _ (probe_service-IsSound env answer c t h)

  pub probe_cycle-IsSound :
      (env : Instance → Surroundings) (w : Worker) (s : b.State) (t : a.State)
      (answer : Result (List String))
      → IsSound w
      → IsSound (probe_cycle b a env w s t answer).worker
  unfolding probe_cycle
  probe_cycle-IsSound env w s t (err e) h = h
  probe_cycle-IsSound env w s t (ok names) h =
      let c : Cycled b a = record { worker = w; live = []; broker = s; agent = t } in
      evict_stale-IsSound _ _ _ (probe_services-IsSound env names c h)
