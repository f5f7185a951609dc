-- ===== src/Api.antt =====
-- internal/api: the bundle limits (limits.go), the shared error codes and the wire requests
-- (types.go). Strings are byte lists, int64 sizes are signed integers.
use mdfly.Common.{Str, ℤ, ℕ, ◌*◌, String, List}

abbrev pub anon_max_total_bytes : ℕ
anon_max_total_bytes = 25 * 1024 * 1024

abbrev pub anon_max_file_count : ℕ
anon_max_file_count = 50

abbrev pub anon_max_single_file_bytes : ℕ
anon_max_single_file_bytes = 10 * 1024 * 1024

abbrev pub code_idempotency_payload_mismatch : String
code_idempotency_payload_mismatch = "idempotency_key_payload_mismatch"

abbrev pub code_bad_bundle : String
code_bad_bundle = "bad_bundle"

abbrev pub code_invalid_edit_token : String
code_invalid_edit_token = "invalid_edit_token"

abbrev pub code_slug_taken : String
code_slug_taken = "slug_taken"

abbrev pub code_update_conflict : String
code_update_conflict = "update_conflict"

abbrev pub code_bundle_too_large : String
code_bundle_too_large = "bundle_too_large"

abbrev pub code_rate_limited : String
code_rate_limited = "rate_limited"

abbrev pub code_gone : String
code_gone = "gone"

pub record BundleFileDto : Type 0 where
  pub path : Str
  pub hash : Str
  pub size : ℤ

pub record BundleDto : Type 0 where
  pub root_path : Str
  pub project_root : Str
  pub files : List BundleFileDto

pub record InitRequest : Type 0 where
  pub idempotency_key : Str
  pub bundle : BundleDto
  pub edit_token : Str

pub record CommitRequest : Type 0 where
  pub idempotency_key : Str

pub record UpdateInitRequest : Type 0 where
  pub target_slug : Str
  pub parent_manifest_hash : Str
  pub bundle : BundleDto

pub record UpdateCommitRequest : Type 0 where
  pub target_slug : Str
  pub parent_manifest_hash : Str
  pub bundle : BundleDto
