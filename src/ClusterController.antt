-- ===== src/ClusterController.antt =====
-- internal/controller/datapreppercluster_controller.go
pub mod Config
pub mod ConfigMaps
pub mod Deployments
pub mod Services
pub mod Autoscaling
pub mod Monitoring
pub mod Status
pub mod Reconcile
pub mod Resolution
pub mod Mounted
pub mod Shared
pub mod Protocols
pub mod InSync
pub mod Settling
pub mod Report
pub mod Autoscaled
pub mod Counting
pub mod Calls
pub mod Traffic
pub mod Scope
pub mod Rollout
pub mod Mounts
pub mod Stored
pub mod Defaulting
pub mod Contention
pub mod Kept
