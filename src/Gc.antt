-- ===== src/Gc.antt =====
-- internal/server/service/gc: the lifecycle sweep over expired, abandoned and terminal documents.
pub mod Sweep
