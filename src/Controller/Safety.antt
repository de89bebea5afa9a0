-- ===== src/Controller/Safety.antt =====
-- What the controller may ask of the cluster, whatever the cluster answers.
pub mod Details
pub mod Allowed
pub mod Preparing
pub mod Traversal
pub mod Endings
pub mod Handlers
pub mod Whole
pub mod Isolation
pub mod Lifecycle
pub mod PolicyFirst
