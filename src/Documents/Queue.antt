-- ===== src/Documents/Queue.antt =====
-- internal/server/db/purge.go: the purge queue, one row for each slug.
pub mod Laws
use mdfly.Common.{
  leb, ◌==◌, if◌then◌else◌, take, filter, any, Str, str_eq, ℕ, ◌+◌, Bool, not, ◌&&◌, List, [], ◌∷◌,
  ◌++◌, map,
}
use mdfly.Documents.Table.{PurgeRow, update_where}

pub record PurgeTask : Type 0 where
  pub slug : Str
  pub attempts : ℕ

abbrev pub queued : Str → PurgeRow → Bool
queued s r = str_eq r.slug s

unfoldable pub fresh : Str → ℕ → PurgeRow
fresh s now = record { slug = s; enqueued_at = now; attempts = 0; next_attempt_at = now }

-- `INSERT … ON CONFLICT (slug) DO UPDATE`
unfoldable pub enqueue_purge : Str → ℕ → List PurgeRow → List PurgeRow
enqueue_purge s now q =
    if any (queued s) q
    then update_where (queued s)
        (λ r. record r { enqueued_at = now; attempts = 0; next_attempt_at = now }) q
    else q ++ (fresh s now ∷ [])

abbrev pub claimed : Str → ℕ → PurgeRow → Bool
claimed s attempts r = queued s r && r.attempts == attempts

-- `DELETE … WHERE slug = $1 AND attempts = $2`
unfoldable pub mark_purge_done : Str → ℕ → List PurgeRow → List PurgeRow
mark_purge_done s attempts = filter (λ r. not (claimed s attempts r))

unfoldable pub backoff_purge : Str → ℕ → ℕ → List PurgeRow → List PurgeRow
backoff_purge s attempts at =
    update_where (claimed s attempts)
      (λ r. record r { attempts = r.attempts + 1; next_attempt_at = at })

-- `ORDER BY`: a stable insertion sort.
module _ {ℓ} {A : Type ℓ} (key : A → ℕ) where
  unfoldable pub insert_by : A → List A → List A
  insert_by x [] = x ∷ []
  insert_by x (y ∷ ys) =
      let rest = insert_by x ys in if leb (key x) (key y) then x ∷ y ∷ ys else y ∷ rest

  unfoldable pub sort_by : List A → List A
  unfolding insert_by
  sort_by [] = []
  sort_by (x ∷ xs) = insert_by x (sort_by xs)

-- `WHERE next_attempt_at <= $1 ORDER BY next_attempt_at LIMIT $2`
unfoldable pub claim_purge_due : ℕ → ℕ → List PurgeRow → List PurgeTask
unfolding sort_by
claim_purge_due now limit q =
    map (λ r. record { slug = r.slug; attempts = r.attempts })
      (take limit (sort_by (λ r. r.next_attempt_at) (filter (λ r. leb r.next_attempt_at now) q)))
