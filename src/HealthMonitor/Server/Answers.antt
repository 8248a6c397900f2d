-- ===== src/HealthMonitor/Server/Answers.antt =====
-- What the API answers about the instances.
use toska_mesh.Prelude.{
  String, ◌≡◌, refl, ◌↔◌, inl, inr, Bool, true, some, List, [], ◌∷◌, arith, str_eq, eq_iff, eq_refl,
  keep, In,
}
use toska_mesh.Prelude.Dict.{Dict, lookup, HasDistinctKeys}
use toska_mesh.HealthMonitor.Cache.{MonitoredInstance, values, get_by_service, get}
use toska_mesh.HealthMonitor.Worker.{Worker}
use toska_mesh.HealthMonitor.Server.{service_status, listed_in, respond}
use toska_mesh.HealthMonitor.Worker.Sound.{IsSound}

lookup-values :
    (d : Dict MonitoredInstance) (id : String) (m : MonitoredInstance)
    → lookup id d ≡ some m
    → In m (values d)
unfolding lookup
lookup-values [] id m h = cc
lookup-values ((k, x) ∷ d) id m h = ground (arith, lookup-values d id m)

-- With distinct keys and each result under its own ID, a listed result is the one of its ID.
values-lookup :
    (d : Dict MonitoredInstance) (m : MonitoredInstance)
    → HasDistinctKeys d
    → ((id : String) (x : MonitoredInstance) → lookup id d ≡ some x → x.service_id ≡ id)
    → In m (values d)
    → lookup m.service_id d ≡ some m
unfolding lookup
values-lookup [] m h k i = absurd i
values-lookup ((key, x) ∷ d) m h k (inl e) =
    let same = k key x (rw (lookup, eq_refl key) refl) in ground (arith, eq_iff key m.service_id)
values-lookup ((key, x) ∷ d) m h k (inr i) =
    let later = values-lookup d m h.1 (λ id y f. ground (arith, k id y, eq_iff key id, h.0)) i in
    ground (arith, eq_iff key m.service_id)

In-keep :
    (p : MonitoredInstance → Bool) (l : List MonitoredInstance) (m : MonitoredInstance)
    → In m (keep p l) ↔ (In m l × (p m ≡ true))
In-keep p [] m = (λ h. absurd h, λ h. absurd h.0)
In-keep p (x ∷ l) m = ground (arith, In-keep p l m)

-- The results that the API lists for a service are the cached ones of this service: a result is listed
-- exactly if it is the one cached for its ID, and has the service's name.
pub respond-In :
    (w : Worker) (name : String) (m : MonitoredInstance)
    → IsSound w
    → In m (listed_in (respond (service_status name) w.cache))
      ↔ ((get w.cache m.service_id ≡ some m) × (m.service_name ≡ name))
unfolding respond get get_by_service
respond-In w name m s =
    let kept = In-keep (λ inst. str_eq inst.service_name name) (values w.cache.instances) m in
    let named = eq_iff m.service_name name in
    (
      λ h.
          (values-lookup w.cache.instances m s.distinct s.keyed (kept.0 h).0, named.0 (kept.0 h).1),
      λ h. kept.1 (lookup-values w.cache.instances m.service_id m h.0, named.1 h.1),
    )
