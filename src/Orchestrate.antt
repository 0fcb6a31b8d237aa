-- ===== src/Orchestrate.antt =====
-- pkg/orchestrate: the declarative engine.
pub mod Types
pub mod Convert
pub mod Plan
pub mod Links
pub mod Deployment
pub mod Topo
pub mod Apply
pub mod Sync
pub mod Pool
pub mod Conditions
pub mod Drift
