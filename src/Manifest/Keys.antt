-- ===== src/Manifest/Keys.antt =====
-- storage/blob.go and internal/blobmeta: `PrefixKey`, `BlobKey`, `ExtFromPath`.
use mdfly.Common.{if◌then◌else◌, Str, codes, is_empty, has_prefix, to_lower, ext, not, ◌&&◌, ◌++◌}

unfoldable pub ext_from_path : Str → Str
unfolding to_lower ext
ext_from_path path = to_lower (ext path)

unfoldable pub prefix_key : Str → Str
prefix_key slug = codes "documents/" ++ (slug ++ codes "/")

unfoldable pub blob_key : Str → Str → Str → Str
unfolding prefix_key has_prefix is_empty
blob_key slug hash extension =
    let dotted =
      if not (is_empty extension) && not (has_prefix extension (codes "."))
      then codes "." ++ extension
      else extension in
    prefix_key slug ++ (hash ++ dotted)
