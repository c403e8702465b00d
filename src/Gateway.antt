-- ===== src/Gateway.antt =====
-- The request path: src/gateway.
pub mod CircuitBreaker
pub mod EdgeCache
pub mod LoadBalancer
pub mod Exchange
pub mod Pipeline
pub mod RequestQueue
pub mod ResponseCache
pub mod RetryPolicy
