-- ===== src/Documents/Sweep.antt =====
-- The statements of documents.go that the lifecycle sweep runs over many rows. A row that another
-- transaction has locked is skipped (`FOR UPDATE SKIP LOCKED`): `locked` says which these are.
use mdfly.Common.{
  leb, ◌==◌, length, take, filter, any, Str, ℕ, Bool, true, false, not, ◌&&◌, Option, none, some,
  List, map,
}
use mdfly.Documents.Table.{
  Status, deleted, expired, abandoned, is_pending, is_published, Document, Database, update_where,
}
use mdfly.Documents.Queue.{sort_by}

abbrev pub due : Option ℕ → ℕ → Bool
due none now = false
due (some t) now = leb t now

abbrev pub is_none {ℓ} : {A : Type ℓ} → Option A → Bool
is_none none = true
is_none (some _) = false

abbrev pub time_or_zero : Option ℕ → ℕ
time_or_zero none = 0
time_or_zero (some t) = t

-- `expires_at IS NOT NULL AND deleted_at IS NULL AND status = 'published' AND expires_at <= $1`
abbrev pub expiry_due : ℕ → Document → Bool
expiry_due now r = is_none r.deleted_at && (is_published r.status && due r.expires_at now)

abbrev pub pending_since : ℕ → Document → Bool
pending_since older_than r = is_pending r.status && leb r.created_at older_than

-- `status IN ('deleted', 'expired', 'abandoned') AND (status = 'abandoned' OR updated_at <= $1)`
abbrev pub terminal_due : Status → ℕ → ℕ → Bool
terminal_due deleted updated graced = leb updated graced
terminal_due expired updated graced = leb updated graced
terminal_due abandoned updated graced = true
terminal_due _ updated graced = false

abbrev pub blob_gc_due : ℕ → Document → Bool
blob_gc_due graced r = is_none r.blobs_deleted_at && terminal_due r.status r.updated_at graced

-- The `candidates` of a sweep statement: chosen rows in order, at most `limit` of them.
unfoldable pub candidates : (Document → Bool) → (Document → ℕ) → ℕ → List Document → List Document
unfolding sort_by
candidates p key limit rows = take limit (sort_by key (filter p rows))

abbrev pub has_id : ℕ → Document → Bool
has_id i r = r.id == i

-- `UPDATE documents d SET f FROM candidates c WHERE d.id = c.id`
abbrev pub in_candidates : List Document → Document → Bool
in_candidates cs r = any (has_id r.id) cs

unfoldable pub sweep_update : List Document → (Document → Document) → Database → Database × ℕ
sweep_update cs f d =
    (record d { documents = update_where (in_candidates cs) f d.documents }, length cs)

abbrev pub expire_set : ℕ → Document → Document
expire_set now r = record r { status = expired; updated_at = now }

abbrev pub abandon_set : ℕ → Document → Document
abandon_set now r = record r { status = abandoned; updated_at = now }

abbrev pub stamp_set : ℕ → Document → Document
stamp_set now r = record r { blobs_deleted_at = some now }

module _ (locked : Document → Bool) where
  abbrev pub expirable : ℕ → Document → Bool
  expirable now r = expiry_due now r && not (locked r)

  abbrev pub abandonable : ℕ → Document → Bool
  abandonable older_than r = pending_since older_than r && not (locked r)

  -- `MarkExpired`: rows are due by the time that the service gives, and are stamped with the database's.
  unfoldable pub mark_expired : ℕ → ℕ → ℕ → Database → Database × ℕ
  unfolding sweep_update
  mark_expired by limit now d =
      sweep_update (candidates (expirable by) (λ r. time_or_zero r.expires_at) limit d.documents)
        (expire_set now) d

  unfoldable pub mark_abandoned : ℕ → ℕ → ℕ → Database → Database × ℕ
  unfolding sweep_update
  mark_abandoned older_than limit now d =
      sweep_update (candidates (abandonable older_than) (λ r. r.created_at) limit d.documents)
        (abandon_set now) d

pub record BlobGcCandidate : Type 0 where
  pub id : ℕ
  pub slug : Str
  pub status : Status

unfoldable pub list_blob_gc_candidates : ℕ → ℕ → Database → List BlobGcCandidate
unfolding candidates
list_blob_gc_candidates graced limit d =
    map (λ r. record { id = r.id; slug = r.slug; status = r.status })
      (candidates (blob_gc_due graced) (λ r. r.updated_at) limit d.documents)

abbrev pub stamp_guard : ℕ → Document → Bool
stamp_guard i r = has_id i r && is_none r.blobs_deleted_at

unfoldable pub set_blobs_deleted_at : ℕ → ℕ → Database → Database
set_blobs_deleted_at i now d = record d {
  documents = update_where (stamp_guard i) (stamp_set now) d.documents;
}
