-- ===== src/Raw.antt =====
-- internal/server/service/raw and handlers/raw.go: a file of a bundle as it was published.
pub mod Classify
pub mod Open
pub mod Handler
