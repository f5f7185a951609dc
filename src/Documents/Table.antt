-- ===== src/Documents/Table.antt =====
-- The rows of `documents` and `purge_queue` (documents.go, migrations/), and the two ways in which
-- the statements of the package go through them.
use mdfly.Common.{
  if◌then◌else◌, Str, str_eq, ℤ, ℕ, ◌≡◌, refl, ◌⊎◌, inl, inr, Bool, true, false, Option, none, some,
  List, map,
}

-- DocumentStatus
pub data Status : Type 0 where
  pending published deleted expired abandoned : Status

abbrev pub is_pending : Status → Bool
is_pending pending = true
is_pending _ = false

abbrev pub is_published : Status → Bool
is_published published = true
is_published _ = false

-- A row of `documents`: the fields of Document with the two columns that only statements read. A
-- time is a number of nanoseconds, a NULL is `none`; the empty token hash stands for NULL.
pub record Document : Type 0 where
  pub id : ℕ
  pub slug : Str
  pub idempotency_key : Str
  pub status : Status
  pub manifest_json : Str
  pub manifest_hash : Str
  pub edit_token_hash : Str
  pub bytes_total : ℤ
  pub file_count : ℕ
  pub expires_at : Option ℕ
  pub created_at : ℕ
  pub updated_at : ℕ
  pub deleted_at : Option ℕ
  pub blobs_deleted_at : Option ℕ

-- A row of `purge_queue`.
pub record PurgeRow : Type 0 where
  pub slug : Str
  pub enqueued_at : ℕ
  pub attempts : ℕ
  pub next_attempt_at : ℕ

pub record Database : Type 0 where
  pub documents : List Document
  pub purge_queue : List PurgeRow
  -- the sequence behind `id BIGSERIAL`
  pub next_id : ℕ

pub data DbError : Type 0 where
  not_found gone unavailable : DbError

pub data DbResult (A : Type 0) : Type 0 where
  found : A → DbResult A
  failed : DbError → DbResult A

-- `UPDATE … SET f WHERE p`
abbrev pub update_where {ℓ} : {A : Type ℓ} → (A → Bool) → (A → A) → List A → List A
update_where p f = map (λ r. if p r then f r else r)

abbrev pub has_slug : Str → Document → Bool
has_slug s r = str_eq r.slug s

abbrev pub has_key : Str → Document → Bool
has_key k r = str_eq r.idempotency_key k

-- A row that a SELECT or a RETURNING scans; no row is pgx.ErrNoRows.
abbrev pub scan : Option Document → DbResult Document
scan none = failed not_found
scan (some r) = found r

-- The row that an `UPDATE … RETURNING` scans, with the columns that it set.
abbrev pub returning : (Document → Document) → Option Document → DbResult Document
returning f none = failed not_found
returning f (some r) = found (f r)

pub DbResult-cases :
    {A : Type 0} (x : DbResult A) → ((e : DbError) × (x ≡ failed e)) ⊎ ((a : A) × (x ≡ found a))
DbResult-cases (failed e) = inl (e, refl)
DbResult-cases (found a) = inr (a, refl)
