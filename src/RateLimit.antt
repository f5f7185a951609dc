-- ===== src/RateLimit.antt =====
-- internal/server/ratelimit: dual fixed windows for each subject, counted in a shared store.
pub mod Limiter
pub mod Subject
