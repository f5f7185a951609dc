-- ===== src/Cli/Limits.antt =====
-- internal/cli/publish: the local bundle (bundle.go) and its preflight (limits.go). The file list is
-- one order in which the `range` over the map FilesByPath may go.
pub mod Preflight
use mdfly.Common.{
  ltb, if◌then◌else◌, length, ltb_ℤ, add64, Str, ℤ, pos, String, Option, none, some, List, [], ◌∷◌,
}
use mdfly.Api.{
  anon_max_total_bytes, anon_max_file_count, anon_max_single_file_bytes, BundleFileDto, BundleDto,
}
use mdfly.Common.Dict.{Dict}

pub record BundleFile : Type 0 where
  pub path : Str
  pub hash : Str
  pub size : ℤ
  pub content : Str

pub record Bundle : Type 0 where
  pub root_path : Str
  pub project_root : Str
  pub files_by_path : Dict BundleFile

pub record BundleLimitError : Type 0 where
  pub limit : String
  pub max : ℤ
  pub actual : ℤ

-- `TotalBytes`
unfoldable pub total_bytes : ℤ → Dict BundleFile → ℤ
total_bytes total [] = total
total_bytes total ((_, f) ∷ files) = total_bytes (add64 total f.size) files

unfoldable pub dto_files : Dict BundleFile → List BundleFileDto
dto_files [] = []
dto_files ((_, f) ∷ files) =
    record { path = f.path; hash = f.hash; size = f.size } ∷ dto_files files

-- `ToDTO`
unfoldable pub to_dto : Bundle → BundleDto
to_dto b = record {
  root_path = b.root_path;
  project_root = b.project_root;
  files = dto_files b.files_by_path;
}

-- The loop of `checkBundleLimits` and what follows it.
unfoldable pub check_files : ℤ → Dict BundleFile → Option BundleLimitError
check_files total [] =
    if ltb_ℤ (pos anon_max_total_bytes) total
    then some (record { limit = "total_bytes"; max = pos anon_max_total_bytes; actual = total })
    else none
check_files total ((_, f) ∷ files) =
    if ltb_ℤ (pos anon_max_single_file_bytes) f.size
    then some (record {
      limit = "single_file_bytes";
      max = pos anon_max_single_file_bytes;
      actual = f.size;
    })
    else check_files (add64 total f.size) files

unfoldable pub check_bundle_limits : Bundle → Option BundleLimitError
check_bundle_limits b =
    if ltb anon_max_file_count (length b.files_by_path)
    then some (record {
      limit = "file_count";
      max = pos anon_max_file_count;
      actual = pos (length b.files_by_path);
    })
    else check_files (pos 0) b.files_by_path
