-- ===== src/Tests.antt =====
-- Runs of the model at concrete data, and the theorems at them.
pub mod World
mod Walk
mod LocalState
mod Init
mod Requests
mod Jobs
mod Limits
mod Files
mod Pages
mod Addresses
mod Runs
mod Deletion
mod Setup
