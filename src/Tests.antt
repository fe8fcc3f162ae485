-- ===== src/Tests.antt =====
-- The theorems at concrete inputs.
pub mod Fixtures
pub mod Machinery
pub mod Comparing
pub mod Pipelines
pub mod Reports
pub mod InSync
pub mod Applied
pub mod Clusters
pub mod Manager
pub mod Stored
pub mod Replay
pub mod Repeated
pub mod Bootstrap
pub mod Race
pub mod Autoscaled
pub mod Defaulting
pub mod Contention
