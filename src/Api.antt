-- ===== src/Api.antt =====
-- The objects of the Kubernetes API that the operator reads and writes.
pub mod Core
pub mod Task
