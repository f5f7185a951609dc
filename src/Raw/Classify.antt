-- ===== src/Raw/Classify.antt =====
-- raw.go: the content type of a raw file; markdown/highlight.go: `IsBinary`.
pub mod Laws
use mdfly.Common.{
  if◌then◌else◌, Str, codes, str_eq, has_byte, ℕ, Bool, true, false, not, ◌||◌, none, some, [], ◌∷◌,
}
use mdfly.Common.Dict.{Dict, lookup}
use mdfly.Common.Utf8.{valid}
use mdfly.Manifest.Keys.{ext_from_path}

abbrev pub peek_bytes : ℕ
peek_bytes = 512

abbrev pub octet_type : Str
octet_type = codes "application/octet-stream"

abbrev pub pdf_type : Str
pdf_type = codes "application/pdf"

abbrev pub text_type : Str
text_type = codes "text/plain; charset=utf-8"

abbrev pub pdf_ext : Str
pdf_ext = codes ".pdf"

unfoldable pub inline_types : Dict Str
inline_types =
    (codes ".png", codes "image/png")
    ∷ (codes ".jpg", codes "image/jpeg")
    ∷ (codes ".jpeg", codes "image/jpeg")
    ∷ (codes ".gif", codes "image/gif")
    ∷ (codes ".webp", codes "image/webp")
    ∷ (codes ".mp4", codes "video/mp4")
    ∷ (codes ".webm", codes "video/webm")
    ∷ (codes ".mp3", codes "audio/mpeg")
    ∷ (codes ".wav", codes "audio/wav")
    ∷ []

unfoldable pub is_binary : Str → Bool
unfolding has_byte valid
is_binary content = has_byte 0 content || not (valid content)

-- The content type, and whether the file is offered for download.
unfoldable pub classify_raw : Str → Str → Str × Bool
unfolding ext_from_path lookup inline_types str_eq is_binary
classify_raw key head =
    let e = ext_from_path key in
    elim (lookup e inline_types) [
      | some ct ↦ (ct, false)
      | none ↦
          if str_eq e pdf_ext
          then (pdf_type, true)
          else if is_binary head
          then (octet_type, true)
          else (text_type, false)
    ]
