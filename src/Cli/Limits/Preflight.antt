-- ===== src/Cli/Limits/Preflight.antt =====
-- The preflight against the server's validator.
use mdfly.Common.{
  length, All, pos_part, neg_part, add64_exact, Str, pos, ℕ, suc, ◌+◌, ◌*◌, ◌≤◌, ◌<◌, ◌≡◌, refl, ap,
  ◌≢◌, ◌↔◌, true, none, [], ◌∷◌, arith,
}
use mdfly.Common.Hex.{decode}
use mdfly.Api.{anon_max_total_bytes, anon_max_file_count, anon_max_single_file_bytes}
use mdfly.Publish.Validate.{validate_bundle}
use mdfly.Publish.Validate.Laws.{IsFile, sizes, lists_path, IsBundle, validate_bundle-IsBundle}
use mdfly.Common.Dict.{Dict}
use mdfly.Cli.Limits.{BundleFile, Bundle, dto_files, to_dto, check_files, check_bundle_limits}

-- A file as `newBundleFile` makes it: a hexadecimal SHA-256, a path, and a length for its size.
pub record IsLocal (f : BundleFile) : Type 0 where
  pub hash_length : length f.hash ≡ 64
  pub hash_hex : decode f.hash ≢ none
  pub has_path : f.path ≢ []
  pub size_low : neg_part f.size ≡ 0

abbrev pub LocalEntry : Str × BundleFile → Type 0
LocalEntry (path, f) = IsLocal f

-- A bundle as the command line makes it: local files, the root among them.
pub record IsLocalBundle (b : Bundle) : Type 0 where
  pub has_root : b.root_path ≢ []
  pub local_files : All LocalEntry b.files_by_path
  pub lists_root : lists_path b.root_path (dto_files b.files_by_path) ≡ true

length-dto_files : (fs : Dict BundleFile) → length (dto_files fs) ≡ length fs
unfolding dto_files
length-dto_files [] = refl
length-dto_files ((path, f) ∷ fs) = ap suc (length-dto_files fs)

check_files_sound :
    (t : ℕ) (fs : Dict BundleFile)
    → t + anon_max_single_file_bytes * length fs < 9223372036854775808
    → All LocalEntry fs
    → check_files (pos t) fs ≡ none
    → All IsFile (dto_files fs) × (t + sizes (dto_files fs) ≤ anon_max_total_bytes)
unfolding check_files dto_files sizes
check_files_sound t [] b h e = (tt, ground arith)
check_files_sound t ((path, f) ∷ fs) b h e = ground (
  arith,
  h.0.hash_length,
  h.0.hash_hex,
  h.0.has_path,
  h.0.size_low,
  check_files_sound (t + pos_part f.size) fs,
  add64_exact t (pos_part f.size),
)

check_files_complete :
    (t : ℕ) (fs : Dict BundleFile)
    → All IsFile (dto_files fs)
    → t + sizes (dto_files fs) ≤ anon_max_total_bytes
    → check_files (pos t) fs ≡ none
unfolding check_files dto_files sizes
check_files_complete t [] h b = ground arith
check_files_complete t ((path, f) ∷ fs) h b = ground (
  arith,
  h.0.size_low,
  h.0.size_high,
  check_files_complete (t + pos_part f.size) fs,
  add64_exact t (pos_part f.size),
)

preflight-IsBundle :
    (b : Bundle) → IsLocalBundle b → check_bundle_limits b ≡ none → IsBundle (to_dto b)
unfolding check_bundle_limits to_dto
preflight-IsBundle b l e =
    let count = length-dto_files b.files_by_path in
    let within : length b.files_by_path ≤ anon_max_file_count = ground arith in
    let (files, total) =
      check_files_sound 0 b.files_by_path (omega (arith, within)) l.local_files (ground arith) in
    record {
      has_root = l.has_root;
      count_high = rw count within;
      all_files = files;
      lists_root = l.lists_root;
      total_high = omega (arith, total);
    }

IsBundle-preflight : (b : Bundle) → IsBundle (to_dto b) → check_bundle_limits b ≡ none
unfolding check_bundle_limits to_dto
IsBundle-preflight b h = ground (
  arith,
  length-dto_files b.files_by_path,
  h.count_high,
  check_files_complete 0 b.files_by_path h.all_files (omega (arith, h.total_high)),
)

-- The preflight of the command line and the server agree: of a bundle as the command line makes it,
-- the preflight passes exactly the ones that the server's validation passes.
pub check_bundle_limits-validate_bundle :
    (b : Bundle)
    → IsLocalBundle b
    → (check_bundle_limits b ≡ none) ↔ (validate_bundle (to_dto b) ≡ none)
check_bundle_limits-validate_bundle b l = (
  λ e. (validate_bundle-IsBundle (to_dto b)).1 (preflight-IsBundle b l e),
  λ e. IsBundle-preflight b ((validate_bundle-IsBundle (to_dto b)).0 e),
)
