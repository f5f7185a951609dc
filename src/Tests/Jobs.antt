-- ===== src/Tests/Jobs.antt =====
-- Jobs on the small world.
use mdfly.Documents.Sweep.{
  list_blob_gc_candidates, mark_abandoned, mark_expired, set_blobs_deleted_at,
}
use mdfly.Common.{
  any, codes, str_eq, is_empty, pos, ◌≡◌, refl, true, false, none, List, [], ◌∷◌, arith,
}
use mdfly.Tests.World.{platform, row, database, database-IsTable}
use mdfly.Documents.Table.{found, published, PurgeRow}
use mdfly.Purge.Drain
use mdfly.Gc.Sweep
use mdfly.Purge.Backoff.{batch_size}
use mdfly.Gc.Sweep.{
  sweep, delete_candidate, delete_candidates, delete_blobs, expire_step, abandon_step, start,
}
use mdfly.Gc.Sweep.Laws.{sweep_spares_live}
use mdfly.Documents.Ops.{get_by_slug}
use mdfly.Documents.Queue.{queued, enqueue_purge}
use mdfly.Documents.Queue.Laws.{IsQueued}
use mdfly.Purge.Drain.{purge, drain, purge_calls, attempt_inline}
use mdfly.Purge.Drain.Laws.{purge_race_kept, inline_purge_forgets}

abbrev purger : Drain.Service
purger = record {
  has_store = true;
  has_cdn = true;
  host = codes "mdfly";
  batch_size = pos 0;
  base_backoff = pos 0;
  max_backoff = pos 0;
}

-- The edge answers, and a write enqueues the slug again while it does.
abbrev busy : Drain.Environment
busy = record {
  claims = true;
  purge_prefixes = λ keys. true;
  clears = λ s. true;
  backs_off = λ s. true;
  during = λ s q. enqueue_purge s 7 q;
}

abbrev waiting : List PurgeRow
waiting = record { slug = codes "live"; enqueued_at = 1; attempts = 2; next_attempt_at = 3 } ∷ []

purger_valid : Drain.validate_config purger ≡ none
unfolding Drain.validate_config is_empty
purger_valid = refl

purge_race_kept_example :
    IsQueued
      (codes "live")
      7
      (purge purger busy (record { slug = codes "live"; attempts = 2 }) waiting).0
purge_race_kept_example =
    purge_race_kept purger busy (record { slug = codes "live"; attempts = 2 }) 7 waiting
      purger_valid (λ e. absurd (omega (arith, e))) refl

inline_done : (purge purger busy (record { slug = codes "live"; attempts = 0 }) waiting).1 ≡ none
unfolding purge Drain.validate_config Drain.purge_calls
inline_done = refl

inline_purge_forgets_example :
    any (queued (codes "live")) (attempt_inline purger busy (codes "live") waiting) ≡ false
inline_purge_forgets_example =
    inline_purge_forgets purger busy (codes "live") 7 waiting refl inline_done

abbrev collector : Sweep.Service
collector = record {
  abandon_grace = pos 10;
  blob_delete_grace = pos 10;
  has_blobs = true;
  batch_size = pos 5;
}

abbrev healthy : Sweep.Environment
healthy = record {
  clock = 50;
  expires = true;
  abandons = true;
  lists = true;
  deletes_prefix = λ s. true;
  stamps = λ i. true;
  locked = λ r. false;
}

swept_live :
    get_by_slug (codes "live") (sweep healthy collector 50 database).db
    ≡ found (row 1 (codes "live") published)
unfolding sweep get_by_slug Sweep.validate_config Sweep.delete_blobs Sweep.delete_candidates
    list_blob_gc_candidates batch_size Sweep.abandon_step mark_abandoned Sweep.expire_step
    mark_expired Sweep.start Sweep.delete_candidate set_blobs_deleted_at str_eq
swept_live = refl

-- The blobs of the deleted and of the abandoned row go.
swept_prefixes :
    (sweep healthy collector 50 database).touched_prefixes ≡ codes "new" ∷ codes "old" ∷ []
unfolding sweep Sweep.validate_config Sweep.delete_blobs Sweep.delete_candidates
    list_blob_gc_candidates batch_size Sweep.abandon_step mark_abandoned Sweep.expire_step
    mark_expired Sweep.start Sweep.delete_candidate
swept_prefixes = refl

sweep_spares_live_example :
    any (str_eq (codes "live")) (sweep healthy collector 50 database).touched_prefixes ≡ false
sweep_spares_live_example =
    sweep_spares_live platform healthy collector 50 database (codes "live") database-IsTable
      swept_live
