-- ===== src/View/Resolver.antt =====
-- resolver.go: where a reference of a page leads; markdown/assets.go: `ResolveLogicalPath` and
-- `IsExternalRef`; storage/blob.go: `BlobPublicURL`.
pub mod Laws
use mdfly.Common.{
  leb, ◌==◌, if◌then◌else◌, any, Str, codes, str_eq, is_empty, cut_prefix, has_prefix, ℕ, Bool,
  true, false, ◌&&◌, ◌||◌, Option, none, some, List, [], ◌∷◌, ◌++◌,
}
use mdfly.Common.Dict.{Dict, lookup}
use mdfly.Common.Paths.{clean, is_abs, join_paths, rel}
use mdfly.Manifest.Build.{Manifest, ManifestFile}
use mdfly.View.Address.{slug_page_url, split_ref_suffix, append_suffix}
use mdfly.Manifest.Keys.{ext_from_path, blob_key}

abbrev pub markdown_ext : Str
markdown_ext = codes ".md"

abbrev pub is_letter : ℕ → Bool
is_letter c = (leb b'a' c && leb c b'z') || (leb b'A' c && leb c b'Z')

abbrev pub is_scheme_byte : ℕ → Bool
is_scheme_byte c = is_letter c || (leb b'0' c && leb c b'9') || c == b'+' || c == b'.' || c == b'-'

-- The rest of the pattern `^[a-zA-Z][a-zA-Z0-9+.\-]*:` behind its first letter.
unfoldable pub scheme_ends : Str → Bool
scheme_ends [] = false
scheme_ends (c ∷ s) =
    let rest = scheme_ends s in if c == b':' then true else is_scheme_byte c && rest

unfoldable pub has_scheme : Str → Bool
unfolding scheme_ends
has_scheme [] = false
has_scheme (c ∷ s) = is_letter c && scheme_ends s

unfoldable pub is_external_ref : Str → Bool
unfolding has_prefix has_scheme
is_external_ref ref = has_prefix ref (codes "//") || has_scheme ref

-- `strings.TrimPrefix(ref, "./")`
unfoldable pub without_dot : Str → Str
unfolding cut_prefix
without_dot ref = elim (cut_prefix ref (codes "./")) [ none ↦ ref | some rest ↦ rest ]

unfoldable pub resolve_logical_path : Str → Str → Str
unfolding without_dot join_paths clean
resolve_logical_path referrer_dir ref = clean (join_paths (referrer_dir ∷ without_dot ref ∷ []))

-- On Unix `FromSlash` and `ToSlash` change nothing.
unfoldable pub resolve_key : Str → Str → Str → Option Str
unfolding is_empty is_abs resolve_logical_path join_paths rel clean
resolve_key referrer_dir project_root ref =
    if is_empty project_root
    then if is_abs ref then none else some (resolve_logical_path referrer_dir ref)
    else let abs =
        if is_abs ref then ref else join_paths (project_root ∷ referrer_dir ∷ ref ∷ []) in
      rel project_root (clean abs)

unfoldable pub is_markdown_key : Str → Bool
unfolding ext_from_path str_eq
is_markdown_key key = str_eq (ext_from_path key) markdown_ext

unfoldable pub image_exts : List Str
image_exts =
    codes ".png" ∷ codes ".jpg" ∷ codes ".jpeg" ∷ codes ".gif" ∷ codes ".webp" ∷ codes ".svg" ∷ []

unfoldable pub is_image_key : Str → Bool
unfolding ext_from_path str_eq image_exts
is_image_key key = any (str_eq (ext_from_path key)) image_exts

unfoldable pub is_dir_key : Manifest → Str → Bool
unfolding has_prefix
is_dir_key m key = any (λ f. has_prefix f.0 (key ++ codes "/")) m.files_by_path

unfoldable pub blob_public_url : Str → Str → Str
blob_public_url public_base key = public_base ++ (codes "/" ++ key)

module _ (public_base slug : Str) (m : Manifest) where
  -- The address of a key of the bundle with what follows the reference.
  unfoldable pub url_of_key : Str → Str → Option Str
  unfolding lookup is_dir_key is_markdown_key slug_page_url append_suffix blob_public_url blob_key
      ext_from_path
  url_of_key key suffix = elim (lookup key m.files_by_path) [
    | none ↦ if is_dir_key m key then some (append_suffix (slug_page_url slug key) suffix) else none
    | some f ↦
        if is_markdown_key key
        then some (append_suffix (slug_page_url slug key) suffix)
        else some (
            append_suffix (blob_public_url public_base (blob_key slug f.hash (ext_from_path key)))
              suffix)
  ]

  -- `pageResolver`; `none` leaves the reference as it is.
  unfoldable pub page_resolver : Str → Str → Option Str
  unfolding is_empty is_external_ref split_ref_suffix resolve_key url_of_key
  page_resolver referrer_dir ref =
      if is_empty ref || is_external_ref ref
      then none
      else let parts = split_ref_suffix ref in
        elim (resolve_key referrer_dir m.project_root parts.0) [
          | none ↦ none
          | some key ↦ url_of_key key parts.1
        ]

unfoldable pub resolve_og_image : Str → (Str → Option Str) → Str
unfolding is_external_ref
resolve_og_image og_path resolve =
    if is_external_ref og_path
    then og_path
    else elim (resolve og_path) [ none ↦ [] | some url ↦ url ]
