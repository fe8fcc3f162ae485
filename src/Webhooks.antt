-- ===== src/Webhooks.antt =====
-- internal/webhook/v1alpha1: the validating admission webhooks.
pub mod ClusterValidator
pub mod PipelineValidator
pub mod Agreement
pub mod Admission
pub mod Lifecycle
pub mod Race
pub mod Unsatisfiable
pub mod ClusterAdmission
