-- ===== src/Identity.antt =====
-- Who makes a request (src/identity).
pub mod Accounts
pub mod Mfa
pub mod Roles
pub mod Sessions
