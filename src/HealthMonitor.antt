-- ===== src/HealthMonitor.antt =====
-- internal/healthmonitor and cmd/healthmonitor: the circuit breaker, the cache of probe results, the probe
-- worker, and the server around them.
pub mod Probe
pub mod Config
pub mod Breaker
pub mod Cache
pub mod Worker
pub mod Server
pub mod Command
mod Tests
