-- ===== src/HealthMonitor/Cache.antt =====
-- internal/healthmonitor/cache.go: the latest probe result of each instance. Every method holds the
-- lock for its whole body, so each is one step.
pub mod Views
use toska_mesh.Prelude.{
  ℕ, String, Bool, Option, none, some, List, [], ◌∷◌, str_eq, ltb, if◌then◌else◌, keep,
}
use toska_mesh.Prelude.Int.{ℤ}
use toska_mesh.Prelude.Dict.{Dict, lookup, insert, delete}
use toska_mesh.Types.{HealthStatus, unknown}

pub record MonitoredInstance : Type 0 where
  pub service_id : String
  pub service_name : String
  pub address : String
  pub port : ℤ
  pub status : HealthStatus
  pub last_probe : ℕ
  pub probe_type : String
  pub message : String
  pub metadata : Dict String

pub record Cache : Type 0 where
  pub instances : Dict MonitoredInstance

-- `NewCache`
unfoldable pub new_cache : Cache
new_cache = record { instances = [] }

-- `Update`: the result is given as a record, its `last_probe` the time of the call.
unfoldable pub update : Cache → MonitoredInstance → Cache
update c inst = record { instances = insert inst.service_id inst c.instances }

abbrev pub values {ℓ} : {V : Type ℓ} → Dict V → List V
values [] = []
values ((k, v) ∷ m) = v ∷ values m

-- `GetAll`
unfoldable pub get_all : Cache → List MonitoredInstance
get_all c = values c.instances

-- `GetByService`
unfoldable pub get_by_service : Cache → String → List MonitoredInstance
get_by_service c name = keep (λ inst. str_eq inst.service_name name) (values c.instances)

-- `Get`
unfoldable pub get : Cache → String → Option MonitoredInstance
get c id = lookup id c.instances

-- `Remove`
unfoldable pub remove : Cache → String → Cache
remove c id = record { instances = delete id c.instances }

-- `for id, inst := range m { if p(inst) { delete(m, id) } }`, on the entries
unfoldable pub delete_where :
    (MonitoredInstance → Bool) → Dict MonitoredInstance → Dict MonitoredInstance
delete_where p [] = []
delete_where p ((id, inst) ∷ m) =
    let rest = delete_where p m in if p inst then delete id rest else (id, inst) ∷ rest

-- `RemoveByService`
unfoldable pub remove_by_service : Cache → String → Cache
remove_by_service c name = record {
  instances = delete_where (λ inst. str_eq inst.service_name name) c.instances;
}

-- `EvictOlderThan`
unfoldable pub evict_older_than : Cache → ℕ → Cache
evict_older_than c cutoff = record {
  instances = delete_where (λ inst. ltb inst.last_probe cutoff) c.instances;
}

-- `PreviousStatus`
unfoldable pub previous_status : Cache → String → HealthStatus
previous_status c id = elim (lookup id c.instances) [ none ↦ unknown | some inst ↦ inst.status ]
