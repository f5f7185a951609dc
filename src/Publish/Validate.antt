-- ===== src/Publish/Validate.antt =====
-- validate.go: what a request must be like before anything is written.
pub mod Laws
use mdfly.Common.{
  ltb, ◌==◌, if◌then◌else◌, length, ltb_ℤ, add64, Str, str_eq, is_empty, ℤ, pos, Bool, true, false,
  not, ◌||◌, Option, none, some, List, [], ◌∷◌,
}
use mdfly.Common.Hex.{decode}
use mdfly.Api.{
  BundleFileDto, BundleDto, InitRequest, CommitRequest, anon_max_total_bytes, anon_max_file_count,
  anon_max_single_file_bytes,
}
use mdfly.Httpx.{HttpError, bad_request, bundle_too_large}
use mdfly.Platform.{present}

-- The checks of one file in the loop of `validateBundle`: its hash, then its path and its size.
unfoldable pub hash_error : Str → Option HttpError
unfolding is_empty
hash_error hash =
    if is_empty hash
    then some (bad_request "bundle file hash required")
    else if not (length hash == 64)
    then some (bad_request "bundle file hash must be 64-char hex SHA256")
    else elim (decode hash) [
      | none ↦ some (bad_request "bundle file hash must be valid hex SHA256")
      | some _ ↦ none
    ]

unfoldable pub size_error : ℤ → Option HttpError
size_error size =
    if ltb_ℤ size (pos 0)
    then some (bad_request "bundle file size must be non-negative")
    else if ltb_ℤ (pos anon_max_single_file_bytes) size
    then some (bundle_too_large "single_file_bytes" (pos anon_max_single_file_bytes) size)
    else none

unfoldable pub file_error : BundleFileDto → Option HttpError
unfolding is_empty
file_error f = elim (hash_error f.hash) [
  | some e ↦ some e
  | none ↦
      if is_empty f.path then some (bad_request "bundle file path required") else size_error f.size
]

-- What follows the loop.
unfoldable pub after_files : Bool → ℤ → Option HttpError
after_files seen_root total =
    if not seen_root
    then some (bad_request "bundle.root_path not present in bundle.files")
    else if ltb_ℤ (pos anon_max_total_bytes) total
    then some (bundle_too_large "total_bytes" (pos anon_max_total_bytes) total)
    else none

unfoldable pub validate_files : Str → Bool → ℤ → List BundleFileDto → Option HttpError
validate_files root seen_root total [] = after_files seen_root total
validate_files root seen_root total (f ∷ fs) = elim (file_error f) [
  | some e ↦ some e
  | none ↦ validate_files root (seen_root || str_eq f.path root) (add64 total f.size) fs
]

abbrev pub no_files : List BundleFileDto → Bool
no_files [] = true
no_files (_ ∷ _) = false

unfoldable pub validate_bundle : BundleDto → Option HttpError
unfolding is_empty
validate_bundle b =
    if is_empty b.root_path || no_files b.files
    then some (bad_request "bundle.root_path and bundle.files required")
    else if ltb anon_max_file_count (length b.files)
    then some (bundle_too_large "file_count" (pos anon_max_file_count) (pos (length b.files)))
    else validate_files b.root_path false (pos 0) b.files

unfoldable pub validate_init : InitRequest → Option HttpError
unfolding is_empty
validate_init req =
    if is_empty req.idempotency_key
    then some (bad_request "idempotency_key required")
    else validate_bundle req.bundle

unfoldable pub validate_commit : CommitRequest → Option HttpError
unfolding is_empty
validate_commit req =
    if is_empty req.idempotency_key then some (bad_request "idempotency_key required") else none
