-- ===== src/Purge/Drain/Laws.antt =====
-- The race of a purge with a write that enqueues the same slug again, and what a drain accounts for.
use mdfly.Purge.Backoff.{default_batch_size, batch_size}
use mdfly.Common.{
  length, any, Str, ℕ, ◌+◌, ◌≡◌, sym, ◌∙◌, ◌≢◌, ◌⊎◌, inl, inr, true, false, Option, none, some,
  List, [], ◌∷◌, arith,
}
use mdfly.Purge.Drain.{
  Service, Environment, purge_calls, settle, count_purged, count_failed, validate_config, purge,
  PurgeError, DrainResult, drain_tasks, drain, attempt_inline,
}
use mdfly.Documents.Sweep.{due}
use mdfly.Documents.Table.{PurgeRow}
use mdfly.Documents.Queue.{PurgeTask, queued, enqueue_purge, mark_purge_done, claim_purge_due}
use mdfly.Documents.Queue.Laws.{
  IsQueued, enqueue_purge-IsQueued, mark_purge_done_fenced, mark_purge_done-enqueue_purge,
}

module _ (s : Service) (env : Environment) where
  purge_calls-queue :
      (task : PurgeTask) (q : List PurgeRow)
      → ((purge_calls s env task q).0 ≡ env.during task.slug q)
        ⊎ ((purge_calls s env task q).0
            ≡ mark_purge_done task.slug task.attempts (env.during task.slug q))
  unfolding purge_calls
  purge_calls-queue task q = ground arith

  -- What a purge leaves: the queue as it was, as the writes during it made it, or that cleared.
  purge-queue :
      (task : PurgeTask) (q : List PurgeRow)
      → validate_config s ≡ none
      → ((purge s env task q).0 ≡ env.during task.slug q)
        ⊎ ((purge s env task q).0
            ≡ mark_purge_done task.slug task.attempts (env.during task.slug q))
  unfolding purge
  purge-queue task q h = ground (arith, purge_calls-queue task q)

  fenced :
      (task : PurgeTask) (now : ℕ) (q : List PurgeRow)
      → task.attempts ≢ 0
      → IsQueued task.slug now q
      → IsQueued task.slug now (mark_purge_done task.slug task.attempts q)
  fenced task now q h (row, e, zero_attempts, due) = (
    row,
    mark_purge_done_fenced task.slug task.attempts q e (λ x. h (sym x ∙ zero_attempts)),
    zero_attempts,
    due,
  )

  -- A write that enqueues the slug while its purge is under way is not lost, if the purge was claimed
  -- with attempts counted: however the purge ends, the slug is queued for the write.
  pub purge_race_kept :
      (task : PurgeTask) (now : ℕ) (q : List PurgeRow)
      → validate_config s ≡ none
      → task.attempts ≢ 0
      → env.during task.slug q ≡ enqueue_purge task.slug now q
      → IsQueued task.slug now (purge s env task q).0
  purge_race_kept task now q v h w =
      let queued = enqueue_purge-IsQueued task.slug now q in
      elim (purge-queue task q v) [
        | inl e ↦ rw (e, w) queued
        | inr e ↦ rw (e, w) (fenced task now (enqueue_purge task.slug now q) h queued)
      ]

  purge_done :
      (task : PurgeTask) (q : List PurgeRow)
      → (purge s env task q).1 ≡ none
      → (purge s env task q).0 ≡ mark_purge_done task.slug task.attempts (env.during task.slug q)
  unfolding purge purge_calls
  purge_done task q e = ground arith

  -- An inline attempt that succeeds leaves nothing queued for a write that enqueued the slug while
  -- the attempt was under way.
  pub inline_purge_forgets :
      (slug : Str) (now : ℕ) (q : List PurgeRow)
      → env.during slug q ≡ enqueue_purge slug now q
      → (purge s env (record { slug = slug; attempts = 0 }) q).1 ≡ none
      → any (queued slug) (attempt_inline s env slug q) ≡ false
  unfolding attempt_inline
  inline_purge_forgets slug now q w e =
      rw (purge_done (record { slug = slug; attempts = 0 }) q e, w)
        (mark_purge_done-enqueue_purge slug now q)

  settle-counts :
      (now : ℕ) (task : PurgeTask) (x : List PurgeRow × Option PurgeError) (r : DrainResult)
      → (settle s env now task x r).1.purged + (settle s env now task x r).1.failed
        ≡ r.purged + r.failed + 1
  unfolding settle count_purged count_failed
  settle-counts now task (q, none) r = ground arith
  settle-counts now task (q, some e) r = ground arith

  drain_tasks-counts :
      (now : ℕ) (tasks : List PurgeTask) (q : List PurgeRow) (r : DrainResult)
      → (drain_tasks s env now tasks q r).1.purged + (drain_tasks s env now tasks q r).1.failed
        ≡ r.purged + r.failed + length tasks
  unfolding drain_tasks
  drain_tasks-counts now [] q r = omega arith
  drain_tasks-counts now (task ∷ tasks) q r =
      let step = settle s env now task (purge s env task q) r in
      omega (
        arith,
        drain_tasks-counts now tasks step.0 step.1,
        settle-counts now task (purge s env task q) r,
      )

  -- A drain that can claim accounts for every task that it claimed, as purged or as failed.
  pub drain_accounts :
      (now : ℕ) (q : List PurgeRow)
      → validate_config s ≡ none
      → env.claims ≡ true
      → (drain s env now q).1.purged + (drain s env now q).1.failed
        ≡ length (claim_purge_due now (batch_size s.batch_size default_batch_size) q)
  unfolding drain
  drain_accounts now q h c =
      let claimed = claim_purge_due now (batch_size s.batch_size default_batch_size) q in
      ground
        (arith, drain_tasks-counts now claimed q (record { purged = 0; failed = 0; errors = [] }))
