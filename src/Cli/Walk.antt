-- ===== src/Cli/Walk.antt =====
-- internal/cli/walk/walk.go: the files that a publish uploads. The file system and what the Markdown
-- package finds in a page are parameters; the paths are those of Unix.
pub mod Crawl
pub mod Free
pub mod Reached
pub mod Gathers
pub mod Inside
pub mod Publishes
pub mod Within
use mdfly.Common.{
  if◌then◌else◌, Str, codes, str_eq, is_empty, has_prefix, to_lower, ext, Bool, true, not, ◌||◌,
  Option, none, some, List, [], ◌∷◌, ◌++◌,
}
use mdfly.Common.Dict.{Dict, insert, lookup}
use mdfly.Common.Split.{cut}
use mdfly.Common.Paths.{clean, is_abs, join_paths, dir_of, rel}
use mdfly.Common.Decimal.{itoa}
use mdfly.View.Resolver.{is_external_ref, markdown_ext}

-- What `os.Stat` says of a path.
pub data Mode : Type 0 where
  regular directory irregular : Mode

-- `os.Stat`, `os.ReadFile`, `os.ReadDir` and `filepath.EvalSymlinks`; `none` is an error.
pub record FileSystem : Type 0 where
  pub stat : Str → Option Mode
  pub read_file : Str → Option Str
  pub read_dir : Str → Option (List Str)
  pub eval_symlinks : Str → Option Str

-- `markdown.ImageRefs`, `markdown.LinkRefs` and `markdown.HTMLRefs`
pub record Markdown : Type 0 where
  pub image_refs : Str → List Str
  pub link_refs : Str → List Str
  pub html_refs : Str → List Str

-- `DiskPath` is empty for the synthetic root of a text.
pub record File : Type 0 where
  pub logical_path : Str
  pub disk_path : Str
  pub content : Str

pub record Result : Type 0 where
  pub root_path : Str
  pub project_root : Str
  pub files : Dict File

pub record Options : Type 0 where
  pub recursive : Bool

unfoldable pub is_markdown : Str → Bool
unfolding str_eq to_lower ext
is_markdown path = str_eq (to_lower (ext path)) markdown_ext

unfoldable pub strip_fragment : Str → Str
unfolding cut
strip_fragment ref = (cut b'#' ref).0

-- `relKey`
unfoldable pub rel_key : Str → Str → Str
unfolding rel
rel_key project_root target = elim (rel project_root target) [ none ↦ target | some r ↦ r ]

unfoldable pub escapes_root : Str → Str → Bool
unfolding rel str_eq has_prefix
escapes_root project_root target = elim (rel project_root target) [
  | none ↦ true
  | some r ↦ str_eq r (codes "..") || has_prefix r (codes "../")
]

-- The path on disk that a reference of a page in `referrer_dir` names.
unfoldable pub target_of : Str → Str → Str
unfolding is_abs clean join_paths
target_of referrer_dir ref =
    if is_abs ref then clean ref else clean (join_paths (referrer_dir ∷ ref ∷ []))

module _ (fs : FileSystem) where
  -- Where a path leads with its symlinks resolved; the path itself where they cannot be.
  unfoldable pub resolved : Str → Str
  resolved path = elim (fs.eval_symlinks path) [ none ↦ path | some real ↦ real ]

  unfoldable pub resolve_in_root : Str → Str → Str → Option Str
  unfolding target_of escapes_root resolved
  resolve_in_root root_real referrer_dir ref =
      let target = target_of referrer_dir ref in
      if escapes_root root_real (resolved target) then none else some target

  -- The references that stay in the root.
  unfoldable pub resolve_all : Str → Str → List Str → List Str
  unfolding resolve_in_root
  resolve_all root_real folder [] = []
  resolve_all root_real folder (ref ∷ refs) =
      let rest = resolve_all root_real folder refs in
      elim (resolve_in_root root_real folder ref) [ none ↦ rest | some target ↦ target ∷ rest ]

  unfoldable pub dir_targets : Str → Bool → Str → List Str
  unfolding resolve_all
  dir_targets root_real recursive folder = if not recursive then [] else elim (fs.read_dir folder) [
    | none ↦ []
    | some entries ↦ resolve_all root_real folder entries
  ]

-- The references with their fragments stripped, without the empty and the external ones.
unfoldable pub local_refs : List Str → List Str
unfolding strip_fragment is_empty is_external_ref
local_refs [] = []
local_refs (r ∷ refs) =
    let ref = strip_fragment r in
    let rest = local_refs refs in if is_empty ref || is_external_ref ref then rest else ref ∷ rest

unfoldable pub targets : FileSystem → Markdown → Str → Str → Str → List Str
unfolding local_refs resolve_all
targets fs md root_real referrer_dir content =
    let refs = (md.image_refs content ++ md.link_refs content) ++ md.html_refs content in
    resolve_all fs root_real referrer_dir (local_refs refs)
