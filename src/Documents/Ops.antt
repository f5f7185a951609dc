-- ===== src/Documents/Ops.antt =====
-- The statements of documents.go that read and write one row.
pub mod Laws
use mdfly.Common.{
  if◌then◌else◌, length, find, any, add64, Str, str_eq, is_empty, ℤ, pos, ℕ, ◌+◌, Bool, true, false,
  ◌&&◌, ◌||◌, Option, none, some, [], ◌∷◌, ◌++◌,
}
use mdfly.Common.Hex.{encode}
use mdfly.Common.Dict.{Dict}
use mdfly.Manifest.Build.{Manifest, ManifestFile}
use mdfly.Platform.{Platform}
use mdfly.Documents.Table.{
  Status, pending, published, deleted, expired, abandoned, is_pending, is_published, Document,
  Database, not_found, gone, unavailable, DbResult, found, failed, update_where, has_slug, has_key,
  scan, returning,
}

-- `d.ManifestHashHex()`
unfoldable pub manifest_hash_hex : Document → Str
manifest_hash_hex d = encode d.manifest_hash

-- The loop over the files that sums `bytesTotal`.
unfoldable pub total_size : ℤ → Dict ManifestFile → ℤ
total_size total [] = total
total_size total ((_, f) ∷ files) = total_size (add64 total f.size) files

pub record InsertPendingParams : Type 0 where
  pub slug : Str
  pub idempotency_key : Str
  pub manifest : Manifest
  pub edit_token : Str

pub record UpdateManifestParams : Type 0 where
  pub slug : Str
  pub manifest : Manifest
  -- `none` is the nil parent of --force
  pub parent_manifest_hash : Option Str
  pub expires_at : ℕ

unfoldable pub get_by_idempotency_key : Str → Database → DbResult Document
get_by_idempotency_key key d = scan (find (has_key key) d.documents)

unfoldable pub get_by_slug_any : Str → Database → DbResult Document
get_by_slug_any s d = scan (find (has_slug s) d.documents)

-- The switch of `GetBySlug` on the status.
unfoldable pub by_status : Status → Document → DbResult Document
by_status published r = found r
by_status deleted r = failed gone
by_status expired r = failed gone
by_status pending r = failed not_found
by_status abandoned r = failed not_found

unfoldable pub get_by_slug : Str → Database → DbResult Document
unfolding get_by_slug_any by_status
get_by_slug s d = elim (get_by_slug_any s d) [
  | failed e ↦ failed e
  | found r ↦ by_status r.status r
]

-- `UPDATE … WHERE idempotency_key = $1 AND status = 'pending'`
abbrev pub publish_guard : Str → Document → Bool
publish_guard key r = has_key key r && is_pending r.status

abbrev pub publish_set : ℕ → ℕ → Document → Document
publish_set expires now r = record r {
  status = published;
  expires_at = some expires;
  updated_at = now;
}

-- The row that `Publish` returns when its UPDATE finds none to change.
unfoldable pub publish_reread : DbResult Document → DbResult Document
publish_reread (failed e) = failed e
publish_reread (found r) = if is_published r.status then found r else failed not_found

unfoldable pub publish : Str → ℕ → ℕ → Database → Database × DbResult Document
unfolding get_by_idempotency_key publish_reread
publish key expires now d = elim (find (publish_guard key) d.documents) [
  | none ↦ (d, publish_reread (get_by_idempotency_key key d))
  | some r ↦ (
    record d { documents = update_where (publish_guard key) (publish_set expires now) d.documents },
    found (publish_set expires now r),
  )
]

abbrev pub soft_delete_set : ℕ → Document → Document
soft_delete_set now r = record r {
  status = deleted;
  deleted_at = elim r.deleted_at [ none ↦ some now | some t ↦ some t ];
  updated_at = now;
}

-- `UPDATE … WHERE slug = $1`, whatever the status.
unfoldable pub soft_delete : Str → ℕ → Database → Database × DbResult Document
soft_delete s now d = (
  record d { documents = update_where (has_slug s) (soft_delete_set now) d.documents },
  returning (soft_delete_set now) (find (has_slug s) d.documents),
)

-- `$7::bytea IS NULL OR manifest_hash = $7`
abbrev pub parent_matches : Option Str → Document → Bool
parent_matches none r = true
parent_matches (some h) r = str_eq r.manifest_hash h

abbrev pub update_guard : UpdateManifestParams → Document → Bool
update_guard p r =
    has_slug p.slug r && (is_published r.status && parent_matches p.parent_manifest_hash r)

module _ (pf : Platform) where
  -- `marshalManifest` gives the JSON; its hash is that of the JSON.
  unfoldable pub marshal_manifest : Manifest → Option (Str × Str)
  marshal_manifest m = elim (pf.marshal m) [ none ↦ none | some j ↦ some (j, pf.sha256 j) ]

  -- `ManifestHash`
  unfoldable pub manifest_hash : Manifest → Option Str
  unfolding marshal_manifest
  manifest_hash m = elim (marshal_manifest m) [ none ↦ none | some (j, h) ↦ some h ]

  unfoldable pub matches_edit_token : Document → Str → Bool
  unfolding is_empty
  matches_edit_token d token =
      if is_empty token || is_empty d.edit_token_hash
      then false
      else str_eq (pf.sha256 token) d.edit_token_hash

  unfoldable pub new_row : InsertPendingParams → Str → Str → ℕ → ℕ → Document
  unfolding total_size is_empty
  new_row p j h id now = record {
    id = id;
    slug = p.slug;
    idempotency_key = p.idempotency_key;
    status = pending;
    manifest_json = j;
    manifest_hash = h;
    edit_token_hash = if is_empty p.edit_token then [] else pf.sha256 p.edit_token;
    bytes_total = total_size (pos 0) p.manifest.files_by_path;
    file_count = length p.manifest.files_by_path;
    expires_at = none;
    created_at = now;
    updated_at = now;
    deleted_at = none;
    blobs_deleted_at = none;
  }

  -- The INSERT: a used key does nothing, a used slug breaks the unique constraint.
  unfoldable pub insert_row :
      InsertPendingParams → Str × Str → ℕ → Database → Database × DbResult Document
  unfolding get_by_idempotency_key
  insert_row p (j, h) now d =
      let d' = record d { next_id = d.next_id + 1 } in
      let row = new_row p j h d.next_id now in
      if any (has_key p.idempotency_key) d.documents
      then (d', get_by_idempotency_key p.idempotency_key d')
      else if any (has_slug p.slug) d.documents
      then (d', failed unavailable)
      else (record d' { documents = d.documents ++ (row ∷ []) }, found row)

  unfoldable pub insert_pending : InsertPendingParams → ℕ → Database → Database × DbResult Document
  insert_pending p now d = elim (marshal_manifest p.manifest) [
    | none ↦ (d, failed unavailable)
    | some m ↦ insert_row p m now d
  ]

  unfoldable pub update_set : UpdateManifestParams → Str × Str → ℕ → Document → Document
  unfolding total_size
  update_set p (j, h) now r = record r {
    manifest_json = j;
    manifest_hash = h;
    bytes_total = total_size (pos 0) p.manifest.files_by_path;
    file_count = length p.manifest.files_by_path;
    expires_at = some p.expires_at;
    updated_at = now;
  }

  unfoldable pub update_manifest :
      UpdateManifestParams → ℕ → Database → Database × DbResult Document
  update_manifest p now d = elim (marshal_manifest p.manifest) [
    | none ↦ (d, failed unavailable)
    | some m ↦ (
      record d { documents = update_where (update_guard p) (update_set p m now) d.documents },
      returning (update_set p m now) (find (update_guard p) d.documents),
    )
  ]

  -- `GetManifestBySlug`
  unfoldable pub get_manifest_by_slug : Str → Database → DbResult (Document × Manifest)
  unfolding get_by_slug
  get_manifest_by_slug s d = elim (get_by_slug s d) [
    | failed e ↦ failed e
    | found r ↦ elim (pf.unmarshal r.manifest_json) [
      | none ↦ failed unavailable
      | some m ↦ found (r, m)
    ]
  ]
