-- ===== src/Gateway.antt =====
-- internal/gateway and cmd/gateway: the configuration, the rate limiter, the CORS and JWT middleware, the
-- route table, the proxy, the dashboard, and the chain that they form.
pub mod RateLimiter
pub mod Http
pub mod ClientIp
pub mod Config
pub mod Chain
pub mod Dashboard
pub mod Logging
pub mod Command
pub mod Cors
pub mod Jwt
pub mod Routes
pub mod Proxy
mod Tests
