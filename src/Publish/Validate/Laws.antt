-- ===== src/Publish/Validate/Laws.antt =====
-- The validator of validate.go against a declarative description of a well-formed bundle.
use mdfly.Common.{
  length, any, All, pos_part, neg_part, add64_exact, Str, str_eq, is_empty_iff, ℤ, pos, ℕ, ◌+◌, ◌*◌,
  ◌≤◌, ◌<◌, ◌≡◌, refl, ◌≢◌, ◌↔◌, Bool, true, false, ◌||◌, none, List, [], ◌∷◌, arith,
}
use mdfly.Common.Hex.{decode}
use mdfly.Api.{
  BundleFileDto, BundleDto, anon_max_total_bytes, anon_max_file_count, anon_max_single_file_bytes,
}
use mdfly.Publish.Validate.{
  hash_error, size_error, file_error, validate_files, after_files, validate_bundle, no_files,
}

-- A file that the server takes: a 64-digit hexadecimal hash, a path, and a size within the limit.
pub record IsFile (f : BundleFileDto) : Type 0 where
  pub hash_length : length f.hash ≡ 64
  pub hash_hex : decode f.hash ≢ none
  pub has_path : f.path ≢ []
  pub size_low : neg_part f.size ≡ 0
  pub size_high : pos_part f.size ≤ anon_max_single_file_bytes

-- The sizes added up over the integers, with no bound on the sum.
unfoldable pub sizes : List BundleFileDto → ℕ
sizes [] = 0
sizes (f ∷ fs) = pos_part f.size + sizes fs

unfoldable pub lists_path : Str → List BundleFileDto → Bool
lists_path root = any (λ f. str_eq f.path root)

pub record IsBundle (b : BundleDto) : Type 0 where
  pub has_root : b.root_path ≢ []
  pub count_high : length b.files ≤ anon_max_file_count
  pub all_files : All IsFile b.files
  pub lists_root : lists_path b.root_path b.files ≡ true
  pub total_high : sizes b.files ≤ anon_max_total_bytes

hash_error_iff : (h : Str) → (hash_error h ≡ none) ↔ ((length h ≡ 64) × (decode h ≢ none))
unfolding hash_error
hash_error_iff [] = (λ e. cc, λ e. absurd (omega arith))
hash_error_iff (c ∷ s) = (λ e. ground arith, λ e. ground (arith, e.1))

size_error_iff :
    (z : ℤ) → (size_error z ≡ none) ↔ ((neg_part z ≡ 0) × (pos_part z ≤ anon_max_single_file_bytes))
unfolding size_error
size_error_iff z = (λ e. ground arith, λ e. ground arith)

file_error-IsFile : (f : BundleFileDto) → file_error f ≡ none → IsFile f
unfolding file_error
file_error-IsFile f e =
    ground (arith, hash_error_iff f.hash, size_error_iff f.size, is_empty_iff f.path)

IsFile-file_error : (f : BundleFileDto) → IsFile f → file_error f ≡ none
unfolding file_error
IsFile-file_error f h = ground (
  arith,
  hash_error_iff f.hash,
  size_error_iff f.size,
  is_empty_iff f.path,
  h.hash_hex,
  h.has_path,
)

-- What the loop accepts from a state (seen, total) on, while the sum stays far below 2 ^ 63.
validate_files_sound :
    (root : Str) (seen : Bool) (t : ℕ) (fs : List BundleFileDto)
    → t + anon_max_single_file_bytes * length fs < 9223372036854775808
    → validate_files root seen (pos t) fs ≡ none
    → All IsFile fs × ((seen || lists_path root fs) ≡ true) × (t + sizes fs ≤ anon_max_total_bytes)
unfolding validate_files after_files sizes lists_path
validate_files_sound root seen t [] b h = ground arith
validate_files_sound root seen t (f ∷ fs) b h = ground (
  arith,
  file_error-IsFile f,
  IsFile-file_error f,
  validate_files_sound root (seen || str_eq f.path root) (t + pos_part f.size) fs,
  add64_exact t (pos_part f.size),
)

validate_files_complete :
    (root : Str) (seen : Bool) (t : ℕ) (fs : List BundleFileDto)
    → All IsFile fs
    → (seen || lists_path root fs) ≡ true
    → t + sizes fs ≤ anon_max_total_bytes
    → validate_files root seen (pos t) fs ≡ none
unfolding validate_files after_files sizes lists_path
validate_files_complete root seen t [] a l h = ground arith
validate_files_complete root seen t (f ∷ fs) a l h = ground (
  arith,
  IsFile-file_error f a.0,
  validate_files_complete root (seen || str_eq f.path root) (t + pos_part f.size) fs a.1,
  add64_exact t (pos_part f.size),
  a.0.size_low,
)

no_files-lists_path :
    (root : Str) (fs : List BundleFileDto) → lists_path root fs ≡ true → no_files fs ≡ false
unfolding lists_path
no_files-lists_path root [] h = cc
no_files-lists_path root (f ∷ fs) h = refl

-- `validateBundle` accepts a bundle exactly when it names its root, lists it among at most 50
-- files, each file has a path, a 64-digit hexadecimal hash and a size between 0 and 10 MB, and the
-- sizes add up to at most 25 MB over the integers (the int64 sum of the code cannot wrap).
pub validate_bundle-IsBundle : (b : BundleDto) → (validate_bundle b ≡ none) ↔ IsBundle b
unfolding validate_bundle lists_path
validate_bundle-IsBundle b = (
  λ h. ground (arith, is_empty_iff b.root_path, validate_files_sound b.root_path false 0 b.files),
  λ h. ground (
    arith,
    is_empty_iff b.root_path,
    h.has_root,
    h.all_files,
    no_files-lists_path b.root_path b.files,
    validate_files_complete b.root_path false 0 b.files,
  ),
)
