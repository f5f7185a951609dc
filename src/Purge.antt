-- ===== src/Purge.antt =====
-- internal/server/service/purge: the edge cache purge of a queued slug, and the drain of the queue.
pub mod Backoff
pub mod Drain
