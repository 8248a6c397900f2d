-- ===== src/HealthMonitor/Worker/Order.antt =====
-- Instances are probed by one goroutine each. A probe touches the cache and the breakers only at its own
-- ID, so that the order of the probes does not matter for them.
use toska_mesh.Prelude.Int.{add64}
use toska_mesh.Prelude.{
  String, ◌≡◌, refl, sym, ap, ◌∙◌, subst, inl, inr, true, false, Option, none, some, List, [], ◌∷◌,
  arith, str_eq, eq_iff, eq_refl, if◌then◌else◌, Bool-cases, In,
}
use toska_mesh.Prelude.Dict.{lookup, insert, lookup-insert}
use toska_mesh.Types.{healthy, status_eq}
use toska_mesh.Messaging.{Broker}
use toska_mesh.Consul.{Instance}
use toska_mesh.HealthMonitor.Breaker.{
  CircuitBreaker, new_circuit_breaker_with_recovery, allow, record_success, record_failure,
}
use toska_mesh.HealthMonitor.Cache.{MonitoredInstance, get}
use toska_mesh.HealthMonitor.Cache.Views.{get-update}
use toska_mesh.HealthMonitor.Config.{Config}
use toska_mesh.HealthMonitor.Probe.{Surroundings, Outcome, run_probes}
use toska_mesh.HealthMonitor.Worker.{
  Worker, get_breaker, entry_of, refusal, update_status, probe_allowed, probe_instance, probe_list,
  ids_of,
}
use toska_mesh.HealthMonitor.Worker.Cycle.{verdict, listed, cache-probe_instance}

-- The breaker that a probe leaves.
abbrev pub breaker_after : Surroundings → Instance → Worker → CircuitBreaker
breaker_after env inst w =
    let (cb, allowed) = allow (get_breaker w inst.service_id) env.allow_time in
    if allowed
    then (if status_eq (run_probes w.config env inst).status healthy
        then record_success cb
        else record_failure cb env.outcome_time)
    else cb

-- What the worker keeps for an ID.
abbrev pub kept : Worker → String → Option MonitoredInstance × Option CircuitBreaker
kept w id = (get w.cache id, lookup id w.breakers)

-- What it keeps for an instance after its probe.
abbrev pub probed_alone :
    Surroundings → Instance → Worker → Option MonitoredInstance × Option CircuitBreaker
probed_alone env inst w =
    (some (entry_of env inst (verdict env inst w)), some (breaker_after env inst w))

-- No ID stands twice in the list.
abbrev pub HasDistinctIds : List Instance → Type 0
HasDistinctIds [] = Unit
HasDistinctIds (inst ∷ rest) = (listed inst.service_id (ids_of rest) ≡ false) × HasDistinctIds rest

listed-ids_of :
    (inst : Instance) (insts : List Instance)
    → In inst insts
    → listed inst.service_id (ids_of insts) ≡ true
listed-ids_of inst [] h = absurd h
listed-ids_of inst (x ∷ insts) (inl e) = rw (e, eq_refl x.service_id) refl
listed-ids_of inst (x ∷ insts) (inr h) = ground (arith, listed-ids_of inst insts h)

module _ (b : Broker) where
  update_status-config :
      (env : Surroundings) (inst : Instance) (o : Outcome) (w : Worker) (s : b.State)
      → ((update_status b env inst o w s).0.config ≡ w.config)
        × ((update_status b env inst o w s).0.breakers ≡ w.breakers)
  unfolding update_status
  update_status-config env inst o w s = ground arith

  probe_instance-config :
      (env : Surroundings) (inst : Instance) (w : Worker) (s : b.State)
      → ((probe_instance b env inst w s).0.config ≡ w.config)
        × ((probe_instance b env inst w s).0.breakers
            ≡ insert inst.service_id (breaker_after env inst w) w.breakers)
  unfolding probe_instance probe_allowed
  probe_instance-config env inst w s =
      elim (Bool-cases (allow (get_breaker w inst.service_id) env.allow_time).1) [
        | inl e ↦
            rw (e, probe_instance)
              (update_status-config env inst (run_probes w.config env inst) _ s)
        | inr e ↦ rw (e, probe_instance) (update_status-config env inst refusal _ s)
      ]

  kept-probe_instance :
      (env : Surroundings) (inst : Instance) (w : Worker) (s : b.State) (id : String)
      → kept (probe_instance b env inst w s).0 id
        ≡ (if str_eq inst.service_id id then probed_alone env inst w else kept w id)
  unfolding entry_of
  kept-probe_instance env inst w s id =
      let cached = cache-probe_instance b env inst w s in
      let (same, breakers) = probe_instance-config env inst w s in
      elim (Bool-cases (str_eq inst.service_id id)) [
        | inl e ↦ rw (cached, breakers, get-update, lookup-insert, e) refl
        | inr e ↦ rw (cached, breakers, get-update, lookup-insert, e) refl
      ]

  abbrev breaker_or : Option CircuitBreaker → Config → CircuitBreaker
  breaker_or o cfg = elim o [
    | some cb ↦ cb
    | none ↦
        new_circuit_breaker_with_recovery cfg.failure_threshold cfg.recovery_threshold
          (add64 cfg.probe_interval cfg.probe_interval)
  ]

  -- A probe depends only on the configuration and on what is kept for its ID.
  probed_same :
      (env : Surroundings) (inst : Instance) (w w' : Worker)
      → w'.config ≡ w.config
      → kept w' inst.service_id ≡ kept w inst.service_id
      → probed_alone env inst w' ≡ probed_alone env inst w
  unfolding get_breaker
  probed_same env inst w w' c k =
      let found : lookup inst.service_id w'.breakers ≡ lookup inst.service_id w.breakers =
        ap (λ x. x.1) k in
      let same : get_breaker w' inst.service_id ≡ get_breaker w inst.service_id =
        ap (λ o. breaker_or o w'.config) found
        ∙ ap (breaker_or (lookup inst.service_id w.breakers)) c in
      rw (same, c) refl

  -- An ID that is not in the list keeps what it has.
  kept-probe_list :
      (env : Instance → Surroundings) (insts : List Instance) (w : Worker) (s : b.State)
      (id : String)
      → listed id (ids_of insts) ≡ false
      → kept (probe_list b env insts w s).0 id ≡ kept w id
  unfolding probe_list
  kept-probe_list env [] w s id n = refl
  kept-probe_list env (inst ∷ rest) w s id n =
      let (w', s') = probe_instance b (env inst) inst w s in
      let apart : str_eq inst.service_id id ≡ false = ground arith in
      kept-probe_list env rest w' s' id (ground arith)
      ∙ kept-probe_instance (env inst) inst w s id
      ∙ rw apart refl

  -- Whatever the order of the list, each of its instances gets the result and the breaker of its probe
  -- as if it were the only one: they depend on what the worker kept for its ID before, not on the
  -- other probes. (The instances must have distinct IDs.)
  pub kept-probe_list_In :
      (env : Instance → Surroundings) (insts : List Instance) (w : Worker) (s : b.State)
      (inst : Instance)
      → HasDistinctIds insts
      → In inst insts
      → kept (probe_list b env insts w s).0 inst.service_id ≡ probed_alone (env inst) inst w
  unfolding probe_list
  kept-probe_list_In env [] w s inst d h = absurd h
  kept-probe_list_In env (first ∷ rest) w s inst d (inl e) =
      let (w', s') = probe_instance b (env first) first w s in
      let itself = eq_refl first.service_id in
      subst (λ i. kept (probe_list b env rest w' s').0 i.service_id ≡ probed_alone (env i) i w)
        (sym e)
        (kept-probe_list env rest w' s' first.service_id d.0
          ∙ kept-probe_instance (env first) first w s first.service_id
          ∙ rw itself refl)
  kept-probe_list_In env (first ∷ rest) w s inst d (inr h) =
      let (w', s') = probe_instance b (env first) first w s in
      let there = listed-ids_of inst rest h in
      let apart : str_eq first.service_id inst.service_id ≡ false =
        ground (arith, eq_iff first.service_id inst.service_id, there, d.0) in
      let untouched : kept w' inst.service_id ≡ kept w inst.service_id =
        kept-probe_instance (env first) first w s inst.service_id ∙ rw apart refl in
      kept-probe_list_In env rest w' s' inst d.1 h
      ∙ probed_same (env inst) inst w w' (probe_instance-config (env first) first w s).0 untouched
