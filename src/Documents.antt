-- ===== src/Documents.antt =====
-- internal/server/db/documents.go and purge.go: the two tables, each SQL statement as a function on
-- them, and the transactions that join a row change to a purge enqueue.
pub mod Table
pub mod Ops
pub mod Queue
pub mod Sweep
pub mod Tx
pub mod Selection
pub mod Rows
pub mod Effects
pub mod Invariant
pub mod Steps
