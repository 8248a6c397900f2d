-- ===== src/HealthMonitor/Worker/Cycle.antt =====
-- A cycle of probes leaves results for the instances that it has seen, and for no others.
use mathlib.Core.Path.{ap₂}
use toska_mesh.Prelude.{
  String, ◌≡◌, refl, sym, ap, ◌∙◌, subst, inl, inr, Bool, true, false, not, ◌&&◌, ◌||◌, Option,
  none, some, List, [], ◌∷◌, ◌++◌, arith, str_eq, eq_iff, if◌then◌else◌, Bool-cases, Option-cases,
  any,
}
use toska_mesh.Messaging.{Broker}
use toska_mesh.Consul.{Instance, Agent, Registry, get_instances, get_services}
use toska_mesh.HealthMonitor.Breaker.{allow}
use toska_mesh.HealthMonitor.Cache.{MonitoredInstance, Cache, update, values, get_all, get, remove}
use toska_mesh.HealthMonitor.Cache.Views.{get-update, get-remove}
use toska_mesh.HealthMonitor.Probe.{Surroundings, Outcome, run_probes}
use toska_mesh.HealthMonitor.Worker.{
  Worker, get_breaker, entry_of, refusal, update_status, probe_allowed, probe_instance, probe_list,
  ids_of, evict_stale, Cycled, probe_service, probe_services, probe_cycle, probe_all,
}
use toska_mesh.Prelude.Dict.{Dict, lookup}
use toska_mesh.Prelude.Result.{Result, ok, err}

-- what `probeInstance` finds out about an instance
abbrev pub verdict : Surroundings → Instance → Worker → Outcome
verdict env inst w =
    if (allow (get_breaker w inst.service_id) env.allow_time).1
    then run_probes w.config env inst
    else refusal

-- Every cached result stands under its own ID.
abbrev pub IsKeyed : Cache → Type 0
IsKeyed c = (id : String) (m : MonitoredInstance) → get c id ≡ some m → m.service_id ≡ id

abbrev pub is_some {ℓ} : {A : Type ℓ} → Option A → Bool
is_some none = false
is_some (some a) = true

-- Whether the cache has a result for the ID.
abbrev pub tracked : Cache → String → Bool
tracked c id = is_some (get c id)

abbrev pub listed : String → List String → Bool
listed id ids = any (λ i. str_eq i id) ids

module _ (b : Broker) where
  cache-update_status :
      (env : Surroundings) (inst : Instance) (o : Outcome) (w : Worker) (s : b.State)
      → (update_status b env inst o w s).0.cache ≡ update w.cache (entry_of env inst o)
  unfolding update_status
  cache-update_status env inst o w s = ground arith

  pub cache-probe_instance :
      (env : Surroundings) (inst : Instance) (w : Worker) (s : b.State)
      → (probe_instance b env inst w s).0.cache
        ≡ update w.cache (entry_of env inst (verdict env inst w))
  unfolding probe_instance probe_allowed
  cache-probe_instance env inst w s =
      elim (Bool-cases (allow (get_breaker w inst.service_id) env.allow_time).1) [
        | inl e ↦
            rw (e, probe_instance) (cache-update_status env inst (run_probes w.config env inst) _ s)
        | inr e ↦ rw (e, probe_instance) (cache-update_status env inst refusal _ s)
      ]

tracked-update :
    (env : Surroundings) (inst : Instance) (o : Outcome) (c : Cache) (id : String)
    → tracked (update c (entry_of env inst o)) id ≡ (str_eq inst.service_id id || tracked c id)
unfolding entry_of
tracked-update env inst o c id = ground (arith, get-update c (entry_of env inst o) id)

pub IsKeyed-update :
    (env : Surroundings) (inst : Instance) (o : Outcome) (c : Cache)
    → IsKeyed c
    → IsKeyed (update c (entry_of env inst o))
unfolding entry_of
IsKeyed-update env inst o c k id m e =
    ground (arith, get-update c (entry_of env inst o) id, eq_iff inst.service_id id, k id m)

module _ (b : Broker) where
  tracked-probe_list :
      (env : Instance → Surroundings) (insts : List Instance) (w : Worker) (s : b.State)
      (id : String)
      → tracked (probe_list b env insts w s).0.cache id
        ≡ (listed id (ids_of insts) || tracked w.cache id)
  unfolding probe_list
  tracked-probe_list env [] w s id = refl
  tracked-probe_list env (inst ∷ rest) w s id =
      let (w', s') = probe_instance b (env inst) inst w s in
      let seen =
        ap (λ c. tracked c id) (cache-probe_instance b (env inst) inst w s)
        ∙ tracked-update (env inst) inst (verdict (env inst) inst w) w.cache id in
      tracked-probe_list env rest w' s' id ∙ ground (arith, seen)

  IsKeyed-probe_list :
      (env : Instance → Surroundings) (insts : List Instance) (w : Worker) (s : b.State)
      → IsKeyed w.cache
      → IsKeyed (probe_list b env insts w s).0.cache
  unfolding probe_list
  IsKeyed-probe_list env [] w s k = k
  IsKeyed-probe_list env (inst ∷ rest) w s k =
      let (w', s') = probe_instance b (env inst) inst w s in
      IsKeyed-probe_list env rest w' s' (
        subst IsKeyed (sym (cache-probe_instance b (env inst) inst w s))
          (IsKeyed-update (env inst) inst (verdict (env inst) inst w) w.cache k))

tracked-evict_stale :
    (live : List String) (l : List MonitoredInstance) (c : Cache) (id : String)
    → tracked (evict_stale live l c) id
      ≡ (tracked c id && (listed id live || not (any (λ m. str_eq m.service_id id) l)))
unfolding evict_stale
tracked-evict_stale live [] c id = ground arith
tracked-evict_stale live (m ∷ l) c id = ground (
  arith,
  tracked-evict_stale live l c id,
  tracked-evict_stale live l (remove c m.service_id) id,
  get-remove c m.service_id id,
  eq_iff m.service_id id,
)

any-values :
    (m : Dict MonitoredInstance) (id : String) (x : MonitoredInstance)
    → lookup id m ≡ some x
    → x.service_id ≡ id
    → any (λ y. str_eq y.service_id id) (values m) ≡ true
unfolding lookup
any-values [] id x e k = cc
any-values ((i, y) ∷ m) id x e k = ground (arith, any-values m id x, eq_iff x.service_id id)

tracked-get_all :
    (c : Cache) (id : String)
    → IsKeyed c
    → tracked c id ≡ true
    → any (λ m. str_eq m.service_id id) (get_all c) ≡ true
unfolding get_all get
tracked-get_all c id k t = elim (Option-cases (lookup id c.instances)) [
  | inl n ↦ cc
  | inr (x, e) ↦ any-values c.instances id x e (k id x e)
]

-- Every ID that the cycle has seen has a result.
abbrev AllTracked : (b : Broker) (a : Agent) → Cycled b a → Type 0
AllTracked b a c =
    IsKeyed c.worker.cache
    × ((id : String) → listed id c.live ≡ true → tracked c.worker.cache id ≡ true)

any-append :
    (id : String) (xs ys : List String) → listed id (xs ++ ys) ≡ (listed id xs || listed id ys)
any-append id [] ys = refl
any-append id (x ∷ xs) ys = ground (arith, any-append id xs ys)

module _ (b : Broker) (a : Agent) where
  AllTracked-probed :
      (env : Instance → Surroundings) (r : Result (List Instance)) (c : Cycled b a) (t : a.State)
      → AllTracked b a c
      → AllTracked b a (probe_service b a env c t r)
  unfolding probe_service
  AllTracked-probed env (err e) c t h = h
  AllTracked-probed env (ok insts) c t h = (
    IsKeyed-probe_list b env insts c.worker c.broker h.0,
    λ id l. ground (
      arith,
      tracked-probe_list b env insts c.worker c.broker id,
      any-append id (ids_of insts) c.live,
      h.1 id,
    ),
  )

  AllTracked-probe_services :
      (env : Instance → Surroundings) (names : List String) (c : Cycled b a)
      → AllTracked b a c
      → AllTracked b a (probe_services b a env names c)
  unfolding probe_services
  AllTracked-probe_services env [] c h = h
  AllTracked-probe_services env (name ∷ rest) c h =
      let (answer, t) = get_instances a c.worker.registry name c.agent in
      AllTracked-probe_services env rest (probe_service b a env c t answer)
        (AllTracked-probed env answer c t h)

  cycle-tracked :
      (env : Instance → Surroundings) (w : Worker) (s : b.State) (t : a.State) (names : List String)
      (id : String)
      → IsKeyed w.cache
      → let c = probe_cycle b a env w s t (ok names) in tracked c.worker.cache id ≡ listed id c.live
  unfolding probe_cycle
  cycle-tracked env w s t names id k =
      let c =
        probe_services b a env names (record { worker = w; live = []; broker = s; agent = t }) in
      let h =
        AllTracked-probe_services env names
          (record { worker = w; live = []; broker = s; agent = t }) (k, λ i l. cc) in
      ground (
        arith,
        tracked-evict_stale c.live (get_all c.worker.cache) c.worker.cache id,
        tracked-get_all c.worker.cache id h.0,
        h.1 id,
      )

-- Whether an answer of Consul has an instance with the ID.
abbrev pub answer_has : String → Result (List Instance) → Bool
answer_has id (err e) = false
answer_has id (ok instances) = any (λ inst. str_eq inst.service_id id) instances

-- Whether Consul lists an instance with the ID when it is asked about these services in turn.
module _ (a : Agent) where
  abbrev pub consul_lists : Registry → String → List String → a.State → Bool
  consul_lists registry id [] t = false
  consul_lists registry id (name ∷ rest) t =
      let (answer, t') = get_instances a registry name t in
      let later = consul_lists registry id rest t' in answer_has id answer || later

listed-ids_of :
    (id : String) (instances : List Instance)
    → listed id (ids_of instances) ≡ answer_has id (ok instances)
listed-ids_of id [] = refl
listed-ids_of id (inst ∷ rest) = ground (arith, listed-ids_of id rest)

module _ (b : Broker) where
  registry-probe_list :
      (env : Instance → Surroundings) (insts : List Instance) (w : Worker) (s : b.State)
      → (probe_list b env insts w s).0.registry ≡ w.registry
  unfolding probe_list probe_instance probe_allowed update_status
  registry-probe_list env [] w s = refl
  registry-probe_list env (inst ∷ rest) w s =
      let (w', s') = probe_instance b (env inst) inst w s in
      let here : w'.registry ≡ w.registry = ground arith in
      registry-probe_list env rest w' s' ∙ here

module _ (b : Broker) (a : Agent) (env : Instance → Surroundings) where
  registry-probe_service :
      (c : Cycled b a) (t : a.State) (r : Result (List Instance))
      → (probe_service b a env c t r).worker.registry ≡ c.worker.registry
  unfolding probe_service
  registry-probe_service c t (err e) = refl
  registry-probe_service c t (ok insts) = registry-probe_list b env insts c.worker c.broker

  listed-probe_service :
      (c : Cycled b a) (t : a.State) (r : Result (List Instance)) (id : String)
      → listed id (probe_service b a env c t r).live ≡ (answer_has id r || listed id c.live)
  unfolding probe_service
  listed-probe_service c t (err e) id = refl
  listed-probe_service c t (ok insts) id =
      any-append id (ids_of insts) c.live ∙ ap (λ l. l || listed id c.live) (listed-ids_of id insts)

  agent-probe_service :
      (c : Cycled b a) (t : a.State) (r : Result (List Instance))
      → (probe_service b a env c t r).agent ≡ t
  unfolding probe_service
  agent-probe_service c t (err e) = refl
  agent-probe_service c t (ok insts) = refl

  -- What the goroutines gather in `liveIDs` is what Consul lists.
  listed-probe_services :
      (names : List String) (c : Cycled b a) (id : String)
      → listed id (probe_services b a env names c).live
        ≡ (consul_lists a c.worker.registry id names c.agent || listed id c.live)
  unfolding probe_services
  listed-probe_services [] c id = refl
  listed-probe_services (name ∷ rest) c id =
      let (answer, t) = get_instances a c.worker.registry name c.agent in
      let c' = probe_service b a env c t answer in
      let later = listed-probe_services rest c' id in
      let here = listed-probe_service c t answer id in
      let same = registry-probe_service c t answer in
      let state = agent-probe_service c t answer in
      let moved = ap₂ (λ g u. consul_lists a g id rest u) same state in
      ground (arith, later, here, moved)

  -- After a cycle that could list the services, the cache has a result for a service ID exactly if an
  -- instance with this ID was in one of Consul's answers about the listed services, which the cycle
  -- asks in turn; a service whose answer is an error counts as one with no instances. (The cache must
  -- have had each result under its own ID.)
  pub probe_all-tracked :
      (w : Worker) (s : b.State) (t : a.State) (names : List String) (id : String)
      → IsKeyed w.cache
      → (get_services a t).0 ≡ ok names
      → tracked (probe_all b a env w s t).worker.cache id
        ≡ consul_lists a w.registry id names (get_services a t).1
  unfolding probe_all probe_cycle
  probe_all-tracked w s t names id k listing =
      let t' = (get_services a t).1 in
      let start : Cycled b a = record { worker = w; live = []; broker = s; agent = t' } in
      rw (listing, probe_all)
        (cycle-tracked b a env w s t' names id k
          ∙ listed-probe_services names start id
          ∙ ground arith)
