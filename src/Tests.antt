-- ===== src/Tests.antt =====
-- The theorems at concrete inputs, and runs of the operator on the small cluster.
mod Fixtures
mod Admission
mod Lifecycle
mod Policy
mod Outcomes
mod Placement
mod Runs
mod Whole
mod Cli
mod Helpers
mod Process
mod Copies
