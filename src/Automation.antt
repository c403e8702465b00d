-- ===== src/Automation.antt =====
-- Jobs that the gateway runs on its own (src/automation).
pub mod Cron
