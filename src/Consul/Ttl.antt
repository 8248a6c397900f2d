-- ===== src/Consul/Ttl.antt =====
-- What `Register` does: the TTL that it asks for, and the times that it keeps.
use Prim.Native.Nat.{max}
use toska_mesh.Prelude.{
  ℕ, ◌+◌, ◌*◌, ◌≤◌, ◌<◌, String, ◌≡◌, refl, Option, none, some, arith, str_eq, if◌then◌else◌,
}
use toska_mesh.Prelude.Int.{pos, ◌≤ℤ◌, add64}
use toska_mesh.Prelude.Dict.{lookup-insert, lookup-delete}
use toska_mesh.Consul.{
  HealthCheckConfig, Registration, Agent, Registry, second, ttl_interval, ttl_with_buffer, time_of,
  register, deregister,
}

-- For a requested interval of n seconds, up to nine thousand million, the TTL is n + 5 seconds and at
-- least 10 seconds.
pub ttl_with_buffer-requested :
    (hc : HealthCheckConfig) (n : ℕ)
    → hc.interval_seconds ≡ pos n
    → 0 < n
    → n ≤ 9000000000
    → ttl_with_buffer (some hc) ≡ pos (max 10 (n + 5) * second)
unfolding ttl_with_buffer ttl_interval add64
ttl_with_buffer-requested hc n e h b = ground arith

-- The TTL is 35 seconds where no interval is requested, or none that is positive.
pub ttl_with_buffer-default :
    (o : Option HealthCheckConfig)
    → ((hc : HealthCheckConfig) → o ≡ some hc → hc.interval_seconds ≤ℤ pos 0)
    → ttl_with_buffer o ≡ pos (35 * second)
unfolding ttl_with_buffer ttl_interval add64
ttl_with_buffer-default none h = refl
ttl_with_buffer-default (some hc) h = ground (arith, h hc refl)

module _ (a : Agent) where
  -- A registration that the agent takes is dated, and no other date changes; one that it refuses
  -- changes no date.
  pub register-time_of :
      (r : Registry) (reg : Registration) (now : ℕ) (w : a.State) (id : String)
      → time_of (register a r reg now w).1 id ≡ (elim (register a r reg now w).0 [
        | none ↦ if str_eq reg.service_id id then now else time_of r id
        | some e ↦ time_of r id
      ])
  unfolding register time_of
  register-time_of r reg now w id =
      ground (arith, lookup-insert reg.service_id id now r.registration_times)

  -- A deregistration that the agent takes forgets the date of its ID alone; one that it refuses
  -- forgets none.
  pub deregister-time_of :
      (r : Registry) (gone : String) (w : a.State) (id : String)
      → time_of (deregister a r gone w).1 id ≡ (elim (deregister a r gone w).0 [
        | none ↦ if str_eq gone id then 0 else time_of r id
        | some e ↦ time_of r id
      ])
  unfolding deregister time_of
  deregister-time_of r gone w id = ground (arith, lookup-delete gone id r.registration_times)
