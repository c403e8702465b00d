-- ===== src/Middleware.antt =====
-- The middleware around the gateway: src/middleware.
pub mod ApiKeys
pub mod IpFilter
pub mod Jwt
pub mod RateLimit
pub mod RequireRole
