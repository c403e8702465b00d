-- ===== src/Alerting.antt =====
-- Outbound calls: src/alerting.
pub mod UrlGuard
