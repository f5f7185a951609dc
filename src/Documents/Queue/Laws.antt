-- ===== src/Documents/Queue/Laws.antt =====
-- Laws of the purge queue: what an enqueue leaves for a slug, and the fence of a claim.
use mdfly.Common.{
  if◌then◌else◌, Bool-cases, filter, find, any, Str, str_eq_refl, ℕ, ◌≡◌, refl, ap, ◌∙◌, ◌≢◌, inl,
  inr, Bool, true, false, not, some, List, [], ◌∷◌, ◌++◌, map, arith,
}
use mdfly.Common.Lookup.{
  find-map, find-append_none, find-none_of_any, find-of_any, find-holds, map_option,
}
use mdfly.Documents.Queue.{queued, claimed, enqueue_purge, mark_purge_done, fresh}
use mdfly.Documents.Table.{PurgeRow}

-- The slug waits in the queue, due from `now` on, with no attempt counted.
abbrev pub IsQueued : Str → ℕ → List PurgeRow → Type 0
IsQueued s now q =
    (row : PurgeRow) × (find (queued s) q ≡ some row)
    × (row.attempts ≡ 0)
    × (row.next_attempt_at ≡ now)

abbrev requeue : Str → ℕ → PurgeRow → PurgeRow
requeue s now r =
    if queued s r then record r { enqueued_at = now; attempts = 0; next_attempt_at = now } else r

queued-requeue : (s t : Str) (now : ℕ) (r : PurgeRow) → queued t (requeue s now r) ≡ queued t r
queued-requeue s t now r = ground arith

requeued :
    (s : Str) (now : ℕ) (q : List PurgeRow)
    → any (queued s) q ≡ true
    → IsQueued s now (map (requeue s now) q)
requeued s now q h =
    let (r, e) = find-of_any (queued s) q h in
    (
      requeue s now r,
      find-map (queued s) (requeue s now) (queued-requeue s s now) q
          ∙ ap (map_option (requeue s now)) e,
      ground (arith, find-holds (queued s) q e),
      ground (arith, find-holds (queued s) q e),
    )

appended :
    (s : Str) (now : ℕ) (q : List PurgeRow)
    → any (queued s) q ≡ false
    → IsQueued s now (q ++ (fresh s now ∷ []))
unfolding fresh
appended s now q h = (
  fresh s now,
  find-append_none (queued s) q (fresh s now ∷ []) (find-none_of_any (queued s) q h)
      ∙ ground (arith, str_eq_refl s),
  refl,
  refl,
)

-- An enqueue leaves the slug queued and due, with its attempts counted from zero.
pub enqueue_purge-IsQueued :
    (s : Str) (now : ℕ) (q : List PurgeRow) → IsQueued s now (enqueue_purge s now q)
unfolding enqueue_purge
enqueue_purge-IsQueued s now q = elim (Bool-cases (any (queued s) q)) [
  | inl t ↦ rw t (requeued s now q t)
  | inr f ↦ rw f (appended s now q f)
]

find-filter-not :
    (p f : PurgeRow → Bool) (q : List PurgeRow) {row : PurgeRow}
    → find p q ≡ some row
    → f row ≡ false
    → find p (filter (λ r. not (f r)) q) ≡ some row
find-filter-not p f [] e h = cc
find-filter-not p f (r ∷ q) {row} e h = ground (arith, find-filter-not p f q {row = row})

-- A claim that carries another count than the row clears nothing.
pub mark_purge_done_fenced :
    (s : Str) (attempts : ℕ) (q : List PurgeRow) {row : PurgeRow}
    → find (queued s) q ≡ some row
    → row.attempts ≢ attempts
    → find (queued s) (mark_purge_done s attempts q) ≡ some row
unfolding mark_purge_done
mark_purge_done_fenced s attempts q {row} e h =
    find-filter-not (queued s) (claimed s attempts) q e (ground (arith, h))

cleared-requeued :
    (s : Str) (now : ℕ) (q : List PurgeRow)
    → any (queued s) (filter (λ r. not (claimed s 0 r)) (map (requeue s now) q)) ≡ false
cleared-requeued s now [] = refl
cleared-requeued s now (r ∷ q) = ground (arith, cleared-requeued s now q)

cleared-appended :
    (s : Str) (now : ℕ) (q : List PurgeRow)
    → any (queued s) q ≡ false
    → any (queued s) (filter (λ r. not (claimed s 0 r)) (q ++ (fresh s now ∷ []))) ≡ false
unfolding fresh
cleared-appended s now [] h = ground (arith, str_eq_refl s)
cleared-appended s now (r ∷ q) h = ground (arith, cleared-appended s now q)

-- A claim that carries no attempts clears a row that was enqueued after it.
pub mark_purge_done-enqueue_purge :
    (s : Str) (now : ℕ) (q : List PurgeRow)
    → any (queued s) (mark_purge_done s 0 (enqueue_purge s now q)) ≡ false
unfolding mark_purge_done enqueue_purge
mark_purge_done-enqueue_purge s now q = elim (Bool-cases (any (queued s) q)) [
  | inl t ↦ rw t (cleared-requeued s now q)
  | inr f ↦ rw f (cleared-appended s now q f)
]
