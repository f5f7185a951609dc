-- ===== src/Manifest.antt =====
-- internal/server/manifest: the stored form of a bundle; and the names of a blob
-- (internal/server/storage/blob.go).
pub mod Keys
pub mod Build
pub mod NestedKey
