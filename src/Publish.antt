-- ===== src/Publish.antt =====
-- internal/server/service/publish: the publish and update wires.
pub mod Validate
pub mod Service
pub mod Blobs
pub mod Init
pub mod Commit
pub mod Update
pub mod UpdateCommit
pub mod Runs
