-- ===== src/Purge/Drain.antt =====
-- purge.go: `Purge`, `Drain` and what they check first. The edge and the connection to the database
-- are parameters; so is what other transactions do to the queue while a purge is under way.
pub mod Laws
use mdfly.Common.{
  if◌then◌else◌, Str, codes, is_empty, ℤ, ℕ, ◌+◌, Bool, not, Option, none, some, List, [], ◌∷◌,
  ◌++◌,
}
use mdfly.Documents.Table.{PurgeRow}
use mdfly.Documents.Queue.{PurgeTask, mark_purge_done, backoff_purge, claim_purge_due}
use mdfly.Purge.Backoff.{backoff_for, batch_size, default_batch_size, add_time}

pub record Service : Type 0 where
  pub has_store : Bool
  pub has_cdn : Bool
  pub host : Str
  pub batch_size : ℤ
  pub base_backoff : ℤ
  pub max_backoff : ℤ

pub data PurgeError : Type 0 where
  missing_store missing_cdn missing_host claim_failed : PurgeError
  purge_failed clear_failed backoff_failed : Str → PurgeError

-- Which calls succeed, by slug, and the writes that land during the call of the edge for a slug.
pub record Environment : Type 0 where
  pub claims : Bool
  pub purge_prefixes : List Str → Bool
  pub clears : Str → Bool
  pub backs_off : Str → Bool
  pub during : Str → List PurgeRow → List PurgeRow

pub record DrainResult : Type 0 where
  pub purged : ℕ
  pub failed : ℕ
  pub errors : List PurgeError

unfoldable pub validate_config : Service → Option PurgeError
unfolding is_empty
validate_config s =
    if not s.has_store
    then some missing_store
    else if not s.has_cdn
    then some missing_cdn
    else if is_empty s.host
    then some missing_host
    else none

unfoldable pub prefixes : Str → Str → List Str
prefixes host slug =
    (host ++ (codes "/" ++ slug))
    ∷ (host ++ (codes "/llm/" ++ slug))
    ∷ (host ++ (codes "/raw/" ++ slug))
    ∷ []

module _ (s : Service) (env : Environment) where
  -- The calls of `Purge` behind its check.
  unfoldable pub purge_calls : PurgeTask → List PurgeRow → List PurgeRow × Option PurgeError
  purge_calls task q =
      let q' = env.during task.slug q in
      if env.purge_prefixes (prefixes s.host task.slug)
      then if env.clears task.slug
        then (mark_purge_done task.slug task.attempts q', none)
        else (q', some (clear_failed task.slug))
      else (q', some (purge_failed task.slug))

  unfoldable pub purge : PurgeTask → List PurgeRow → List PurgeRow × Option PurgeError
  purge task q = elim (validate_config s) [ some e ↦ (q, some e) | none ↦ purge_calls task q ]

  -- `AttemptInline`, when it gets to run: the error is logged only.
  unfoldable pub attempt_inline : Str → List PurgeRow → List PurgeRow
  attempt_inline slug q = (purge (record { slug = slug; attempts = 0 }) q).0

  unfoldable pub count_purged : DrainResult → DrainResult
  count_purged r = record r { purged = r.purged + 1 }

  unfoldable pub count_failed : PurgeError → List PurgeError → DrainResult → DrainResult
  count_failed e es r = record r { failed = r.failed + 1; errors = e ∷ (es ++ r.errors) }

  -- What the loop of `Drain` does with a task once `Purge` has answered.
  unfoldable pub settle :
      ℕ → PurgeTask → List PurgeRow × Option PurgeError → DrainResult → List PurgeRow × DrainResult
  settle now task (q, none) r = (q, count_purged r)
  settle now task (q, some e) r =
      let at = add_time now (backoff_for s.base_backoff s.max_backoff task.attempts) in
      if env.backs_off task.slug
      then (backoff_purge task.slug task.attempts at q, count_failed e [] r)
      else (q, count_failed e (backoff_failed task.slug ∷ []) r)

  unfoldable pub drain_tasks :
      ℕ → List PurgeTask → List PurgeRow → DrainResult → List PurgeRow × DrainResult
  drain_tasks now [] q r = (q, r)
  drain_tasks now (task ∷ tasks) q r =
      let step = settle now task (purge task q) r in drain_tasks now tasks step.0 step.1

  abbrev nothing : DrainResult
  nothing = record { purged = 0; failed = 0; errors = [] }

  unfoldable pub drain : ℕ → List PurgeRow → List PurgeRow × DrainResult
  drain now q = elim (validate_config s) [
    | some e ↦ (q, record nothing { errors = e ∷ [] })
    | none ↦
        if env.claims
        then drain_tasks now (claim_purge_due now (batch_size s.batch_size default_batch_size) q) q
            nothing
        else (q, record nothing { errors = claim_failed ∷ [] })
  ]
