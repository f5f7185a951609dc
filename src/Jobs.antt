-- ===== src/Jobs.antt =====
-- internal/server/jobs and internal/server/db/jobruns.go: periodic jobs and the record of their runs.
pub mod Record
pub mod Runner
pub mod History
