-- ===== src/Controller.antt =====
-- internal/controller/agenttask_controller.go, by the file's parts.
pub mod Backend
pub mod Resources
pub mod Outcome
pub mod Cleanup
pub mod Phases
pub mod Reconcile
pub mod Safety
pub mod Permissions
pub mod Metrics
pub mod Admitted
pub mod Selection
pub mod Profiles
pub mod Reports
pub mod Counts
pub mod Finalizer
pub mod Progress
pub mod Deadlines
pub mod Expiry
