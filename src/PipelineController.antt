-- ===== src/PipelineController.antt =====
-- internal/controller/dataprepperpipeline_controller.go
pub mod Render
pub mod Collect
pub mod Order
pub mod Rebuild
pub mod Effects
pub mod Listing
pub mod Finalizer
pub mod Convergence
pub mod Health
pub mod Status
pub mod Reconcile
pub mod Watches
pub mod Reach
pub mod Traffic
pub mod InSync
pub mod Quiet
pub mod Synced
pub mod Rebuilt
pub mod Repeated
pub mod Events
pub mod Verdict
