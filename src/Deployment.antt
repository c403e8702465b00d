-- ===== src/Deployment.antt =====
-- Which version and which features are live (src/deployment).
pub mod FeatureFlags
pub mod Releases
mod Tests
