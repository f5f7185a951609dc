-- ===== src/Raw/Open.antt =====
-- raw.go: `Open`, `open`, `rawKey` and `loadManifest`. The stream of a blob is a parameter, and so is
-- mime.FormatMediaType, which is given a media type and a file name.
pub mod Laws
use mdfly.Common.{
  leb, if◌then◌else◌, length, take, Str, codes, is_empty, trim, is_slash, ℤ, Bool, Option, none,
  some, [],
}
use mdfly.Common.Dict.{lookup}
use mdfly.Common.Paths.{base}
use mdfly.Documents.Table.{found, failed, Database, DbError}
use mdfly.Httpx.{Result, ok, err, not_found, gone, ◌>>=◌, internal}
use mdfly.Manifest.Build.{Manifest, ManifestFile}
use mdfly.Platform.{Platform}
use mdfly.Documents.Ops.{get_manifest_by_slug}
use mdfly.Raw.Classify.{peek_bytes, classify_raw}
use mdfly.Manifest.NestedKey.{nested_key}
use mdfly.Manifest.Keys.{ext_from_path, blob_key}

-- The bytes that a stream gives, and whether reading fails behind them.
pub record Stream : Type 0 where
  pub bytes : Str
  pub breaks : Bool

pub record File : Type 0 where
  pub content : Stream
  pub content_type : Str
  pub disposition : Str
  pub etag : Str
  pub size : ℤ

-- `bufio.Reader.Peek` where fewer bytes come with io.EOF; `none` is any other error.
unfoldable pub peek : Stream → Option Str
peek s =
    if leb peek_bytes (length s.bytes)
    then some (take peek_bytes s.bytes)
    else if s.breaks
    then none
    else some s.bytes

unfoldable pub raw_key : Manifest → Str → Str → Option Str
unfolding trim is_empty nested_key
raw_key m raw_path up =
    if is_empty (trim is_slash raw_path)
    then if is_empty m.root_path then none else some m.root_path
    else nested_key raw_path up

module _ (get_blob_stream : Str → Option Stream) (format_media_type : Str → Str → Str) where
  unfoldable pub attachment_disposition : Str → Str
  unfolding base is_empty
  attachment_disposition key =
      let d = format_media_type (codes "attachment") (base key) in
      if is_empty d then codes "attachment" else d

  unfoldable pub file_of : Str → ManifestFile → Stream → Str → File
  unfolding classify_raw attachment_disposition
  file_of key f content head =
      let (ct, attachment) = classify_raw key head in
      record {
        content = content;
        content_type = ct;
        disposition = if attachment then attachment_disposition key else [];
        etag = f.hash;
        size = f.size;
      }

  unfoldable pub open_stream : Str → Str → ManifestFile → Result File
  unfolding blob_key ext_from_path peek file_of
  open_stream slug key f = elim (get_blob_stream (blob_key slug f.hash (ext_from_path key))) [
    | none ↦ err (internal "internal error")
    | some s ↦ elim (peek s) [
      | none ↦ err (internal "internal error")
      | some head ↦ ok (file_of key f s head)
    ]
  ]

  -- `open`
  unfoldable pub open_in : Str → Manifest → Str → Str → Result File
  unfolding raw_key lookup open_stream
  open_in slug m raw_path up = elim (raw_key m raw_path up) [
    | none ↦ err (not_found "not found")
    | some key ↦ elim (lookup key m.files_by_path) [
      | none ↦ err (not_found "not found")
      | some f ↦ open_stream slug key f
    ]
  ]

  module _ (pf : Platform) where
    unfoldable pub load_manifest : Str → Database → Result Manifest
    unfolding is_empty get_manifest_by_slug
    load_manifest slug d =
        if is_empty slug
        then err (not_found "not found")
        else elim (get_manifest_by_slug pf slug d) [
          | found (doc, m) ↦ ok m
          | failed DbError.not_found ↦ err (not_found "not found")
          | failed DbError.gone ↦ err (gone "gone")
          | failed _ ↦ err (internal "internal error")
        ]

    -- `Open`
    unfoldable pub open_raw : Str → Str → Str → Database → Result File
    unfolding load_manifest open_in
    open_raw slug raw_path up d = load_manifest slug d >>= λ m. open_in slug m raw_path up
