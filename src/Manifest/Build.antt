-- ===== src/Manifest/Build.antt =====
-- manifest.go: `FromDTO` and `RootFile`.
use mdfly.Common.{if◌then◌else◌, Str, is_empty, ℤ, Option, none, some, List, [], ◌∷◌}
use mdfly.Common.Dict.{Dict, lookup, insert}
use mdfly.Api.{BundleFileDto, BundleDto}

pub record ManifestFile : Type 0 where
  pub hash : Str
  pub size : ℤ

pub record Manifest : Type 0 where
  pub root_path : Str
  pub project_root : Str
  pub files_by_path : Dict ManifestFile

-- The loop of `FromDTO`: a later entry of a path replaces an earlier one.
unfoldable pub files_of : List BundleFileDto → Dict ManifestFile → Dict ManifestFile
unfolding insert
files_of [] m = m
files_of (f ∷ fs) m = files_of fs (insert f.path (record { hash = f.hash; size = f.size }) m)

build : BundleDto → Dict ManifestFile → Manifest
build dto files = record {
  root_path = dto.root_path;
  project_root = dto.project_root;
  files_by_path = files;
}

-- `none` is ErrRootPathNotFound.
unfoldable pub from_dto : BundleDto → Option Manifest
unfolding files_of lookup is_empty build
from_dto dto =
    let files = files_of dto.files [] in
    if is_empty dto.root_path
    then some (build dto files)
    else elim (lookup dto.root_path files) [ none ↦ none | some _ ↦ some (build dto files) ]

unfoldable pub root_file : Manifest → Option ManifestFile
unfolding lookup is_empty
root_file m = if is_empty m.root_path then none else lookup m.root_path m.files_by_path
