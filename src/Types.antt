-- ===== src/Types.antt =====
-- internal/types/health.go: the health of a service instance.
use toska_mesh.Prelude.{String, ◌≡◌, ◌↔◌, Bool, true, false, arith}

pub data HealthStatus : Type 0 where
  unknown healthy unhealthy degraded : HealthStatus

-- `s.String()`
unfoldable pub to_string : HealthStatus → String
to_string healthy = "Healthy"
to_string unhealthy = "Unhealthy"
to_string degraded = "Degraded"
to_string unknown = "Unknown"

-- `a == b` on statuses
abbrev pub status_eq : HealthStatus → HealthStatus → Bool
status_eq unknown unknown = true
status_eq healthy healthy = true
status_eq unhealthy unhealthy = true
status_eq degraded degraded = true
status_eq _ _ = false

pub status_eq_iff : (a b : HealthStatus) → (status_eq a b ≡ true) ↔ (a ≡ b)
status_eq_iff a b = ground arith
