-- ===== src/Blobs.antt =====
-- internal/blobmeta and internal/server/storage/blob.go: the metadata and the HEAD check of a blob.
pub mod DeletePrefix
use mdfly.Common.{if◌then◌else◌, ltb_ℤ, Str, codes, ℤ, ◌||◌, Option, none, some, [], ◌∷◌}
use mdfly.Common.Dict.{Dict, lookup}
use mdfly.Manifest.Keys.{ext_from_path}
use mdfly.Platform.{Platform, Object, absent, unreachable, present}

pub content_types : Dict Str
content_types =
    (codes ".png", codes "image/png")
    ∷ (codes ".jpg", codes "image/jpeg")
    ∷ (codes ".jpeg", codes "image/jpeg")
    ∷ (codes ".gif", codes "image/gif")
    ∷ (codes ".webp", codes "image/webp")
    ∷ (codes ".svg", codes "image/svg+xml")
    ∷ (codes ".mp4", codes "video/mp4")
    ∷ (codes ".webm", codes "video/webm")
    ∷ (codes ".mp3", codes "audio/mpeg")
    ∷ (codes ".wav", codes "audio/wav")
    ∷ []

abbrev pub default_content_type : Str
default_content_type = codes "application/octet-stream"

-- `ContentType`
unfoldable pub content_type : Str → Str
unfolding content_types lookup ext_from_path
content_type path = elim (lookup (ext_from_path path) content_types) [
  | none ↦ default_content_type
  | some t ↦ t
]

pub data BlobError : Type 0 where
  blob_missing head_failed : BlobError

-- What `HeadBlob` makes of the answer; a size that differs counts as missing.
unfoldable pub check_object : Object → ℤ → Option BlobError
check_object absent size = some blob_missing
check_object unreachable size = some head_failed
check_object (present none) size = none
check_object (present (some n)) size =
    if ltb_ℤ n size || ltb_ℤ size n then some blob_missing else none

unfoldable pub head_blob : Platform → Str → ℤ → Option BlobError
unfolding check_object
head_blob pf key size = check_object (pf.head_object key) size

-- `PresignPUT`: the length and the content type of the key are signed.
unfoldable pub presign_put : Platform → Str → ℤ → Option Str
unfolding content_type
presign_put pf key size = pf.presign_put key size (content_type key)
