-- ===== src/HealthMonitor/Cache/Views.antt =====
-- The cache as a function from IDs to results, and what each method does to it.
use toska_mesh.Prelude.{
  ℕ, String, ◌≡◌, refl, Bool, Option, none, some, [], ◌∷◌, arith, str_eq, eq_iff, ltb,
  if◌then◌else◌,
}
use toska_mesh.Prelude.Dict.{Dict, lookup, lookup-insert, lookup-delete, HasDistinctKeys}
use toska_mesh.HealthMonitor.Cache.{
  MonitoredInstance, Cache, update, get, remove, delete_where, remove_by_service, evict_older_than,
}

-- the result that is left where those that pass a test are deleted
abbrev pub unless : (MonitoredInstance → Bool) → Option MonitoredInstance → Option MonitoredInstance
unless p none = none
unless p (some inst) = if p inst then none else some inst

lookup-delete_where :
    (p : MonitoredInstance → Bool) (m : Dict MonitoredInstance) (id : String)
    → HasDistinctKeys m
    → lookup id (delete_where p m) ≡ unless p (lookup id m)
unfolding delete_where lookup
lookup-delete_where p [] id d = refl
lookup-delete_where p ((k, inst) ∷ m) id d = ground (
  arith,
  lookup-delete_where p m id d.1,
  lookup-delete k id (delete_where p m),
  eq_iff k id,
  lookup-delete_where p m k d.1,
)

-- After an update the ID has the new result, and every other ID what it had.
pub get-update :
    (c : Cache) (inst : MonitoredInstance) (id : String)
    → get (update c inst) id ≡ (if str_eq inst.service_id id then some inst else get c id)
unfolding get update
get-update c inst id = lookup-insert inst.service_id id inst c.instances

pub get-remove :
    (c : Cache) (gone id : String)
    → get (remove c gone) id ≡ (if str_eq gone id then none else get c id)
unfolding get remove
get-remove c gone id = lookup-delete gone id c.instances

-- `RemoveByService` deletes the results of the service, and no others.
pub get-remove_by_service :
    (c : Cache) (name id : String)
    → HasDistinctKeys c.instances
    → get (remove_by_service c name) id ≡ unless (λ inst. str_eq inst.service_name name) (get c id)
unfolding get remove_by_service
get-remove_by_service c name id d =
    lookup-delete_where (λ inst. str_eq inst.service_name name) c.instances id d

-- `EvictOlderThan` deletes the results of probes before the cutoff, and no others.
pub get-evict_older_than :
    (c : Cache) (cutoff : ℕ) (id : String)
    → HasDistinctKeys c.instances
    → get (evict_older_than c cutoff) id ≡ unless (λ inst. ltb inst.last_probe cutoff) (get c id)
unfolding get evict_older_than
get-evict_older_than c cutoff id d =
    lookup-delete_where (λ inst. ltb inst.last_probe cutoff) c.instances id d
