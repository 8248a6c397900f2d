-- ===== src/HealthMonitor/Server/Sound.antt =====
-- What holds of the health monitor at all times.
use toska_mesh.Prelude.{
  ℕ, suc, ◌≤◌, String, ◌≡◌, subst, inl, inr, List, [], ◌∷◌, arith, Option-cases,
}
use toska_mesh.Prelude.Text.{atoi, atoi-IsInt64}
use toska_mesh.Prelude.Int.{pos, ◌<ℤ◌, max_int64, add64, IsInt64}
use toska_mesh.Prelude.Dict.{lookup}
use toska_mesh.Messaging.{Broker, Publisher}
use toska_mesh.Consul.{Instance, Agent, Registry}
use toska_mesh.HealthMonitor.Breaker.{new_circuit_breaker_with_recovery}
use toska_mesh.HealthMonitor.Breaker.Invariant.{new-IsValid}
use toska_mesh.HealthMonitor.Config.{Config, default_config}
use toska_mesh.HealthMonitor.Probe.{Surroundings}
use toska_mesh.HealthMonitor.Worker.{get_breaker, probe_all}
use toska_mesh.HealthMonitor.Worker.Sound.{IsSound, probe_cycle-IsSound}
use toska_mesh.HealthMonitor.Server.{
  Settings, load_settings, new_worker, Action, tick, request, Monitor, cycle, serve, run_monitor,
}
use toska_mesh.HealthMonitor.Cache.{new_cache, get}
use toska_mesh.Prelude.Env.{positive_or}

-- What the breakers rely on in the configuration.
pub record IsUsable (cfg : Config) : Type 0 where
  pub failure_range : IsInt64 cfg.failure_threshold
  pub recovery_range : IsInt64 cfg.recovery_threshold
  pub can_trip : pos 0 <ℤ cfg.failure_threshold

positive_or-usable :
    (value : String) (n : ℕ)
    → suc n ≤ max_int64
    → IsInt64 (positive_or value (pos (suc n))) × (pos 0 <ℤ positive_or value (pos (suc n)))
unfolding positive_or
positive_or-usable value n h = elim (Option-cases (atoi value)) [
  | inl e ↦ rw (positive_or, e) (ground arith)
  | inr (v, e) ↦ rw (positive_or, e) (ground (arith, atoi-IsInt64 value v e))
]

load_settings-IsUsable : (getenv : String → String) → IsUsable (load_settings getenv).config
unfolding load_settings default_config
load_settings-IsUsable getenv =
    let value = getenv "HEALTHMONITOR_FAILURE_THRESHOLD" in
    let threshold = positive_or-usable value 2 (omega arith) in ground (arith, threshold)

new_worker-IsSound :
    (registry : Registry) (publisher : Publisher) (cfg : Config)
    → IsUsable cfg
    → IsSound (new_worker registry publisher new_cache cfg)
unfolding new_worker new_cache get_breaker get lookup new_circuit_breaker_with_recovery
new_worker-IsSound registry publisher cfg u = record {
  breakers_valid = λ id.
      new-IsValid cfg.failure_threshold cfg.recovery_threshold
        (add64 cfg.probe_interval cfg.probe_interval) u.failure_range u.recovery_range u.can_trip;
  breakers_trip = λ id. u.can_trip;
  keyed = λ id m e. cc;
  distinct = tt;
}

module _ (b : Broker) (a : Agent) where
  cycle-IsSound :
      (env : Instance → Surroundings) (m : Monitor b a)
      → IsSound m.worker
      → IsSound (cycle b a env m).worker
  unfolding cycle probe_all
  cycle-IsSound env m h = probe_cycle-IsSound b a env m.worker m.broker _ _ h

  serve-IsSound :
      (acts : List Action) (m : Monitor b a)
      → IsSound m.worker
      → IsSound (serve b a acts m).0.worker
  unfolding serve
  serve-IsSound [] m h = h
  serve-IsSound (tick env ∷ rest) m h = serve-IsSound rest (cycle b a env m) (cycle-IsSound env m h)
  serve-IsSound (request q ∷ rest) m h = serve-IsSound rest m h

  -- The monitor that is started with the configuration from any environment: however many cycles run
  -- and whatever the network, Consul and the clock do in them, every breaker is valid and can trip,
  -- and the cache has each result under its own ID and no ID twice.
  pub run_monitor-IsSound :
      (getenv : String → String) (settings : Settings) (registry : Registry) (publisher : Publisher)
      (s : b.State) (t : a.State) (first : Instance → Surroundings) (acts : List Action)
      → load_settings getenv ≡ settings
      → let worker = new_worker registry publisher new_cache settings.config in
        IsSound
          (run_monitor b a first acts (record { worker = worker; broker = s; agent = t })).0.worker
  unfolding run_monitor
  run_monitor-IsSound getenv settings registry publisher s t first acts e = serve-IsSound acts _ (
      cycle-IsSound first _ (
        new_worker-IsSound registry publisher settings.config
          (subst (λ x. IsUsable x.config) e (load_settings-IsUsable getenv))))
