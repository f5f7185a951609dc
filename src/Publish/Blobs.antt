-- ===== src/Publish/Blobs.antt =====
-- publish_helpers.go: presigned uploads and the check of the uploaded blobs. A file list is one
-- order in which the `range` over the manifest's map may go.
pub mod Uploaded
use mdfly.Common.{any, Str, str_eq, true, false, Option, none, some, List, [], ◌∷◌}
use mdfly.Common.Dict.{Dict, insert}
use mdfly.Manifest.Build.{ManifestFile}
use mdfly.Manifest.Keys.{ext_from_path, blob_key}
use mdfly.Platform.{Platform}
use mdfly.Blobs.{BlobError, blob_missing, head_failed, head_blob, presign_put}
use mdfly.Httpx.{HttpError, Result, ok, err, internal, no_details, blob_msg}
use mdfly.Slug.{generate}

abbrev pub key_of : Str → Str → ManifestFile → Str
key_of slug path f = blob_key slug f.hash (ext_from_path path)

module _ (pf : Platform) (slug : Str) where
  -- The loop of `buildPresignedURLs`; `seen` are the keys that have a URL.
  unfoldable pub build_presigned_urls : List Str → Dict Str → Dict ManifestFile → Result (Dict Str)
  unfolding str_eq presign_put insert
  build_presigned_urls seen urls [] = ok urls
  build_presigned_urls seen urls ((path, f) ∷ files) =
      elim (any (str_eq (key_of slug path f)) seen) [
        | true ↦ build_presigned_urls seen urls files
        | false ↦ elim (presign_put pf (key_of slug path f) f.size) [
          | none ↦ err (internal "failed to generate presigned URLs")
          | some url ↦ build_presigned_urls (key_of slug path f ∷ seen) (insert path url urls) files
        ]
      ]

  abbrev blob_error : Str → BlobError → HttpError
  blob_error hash blob_missing = record {
    status = 409;
    code = "blob_missing";
    msg = blob_msg hash;
    details = no_details;
  }
  blob_error hash head_failed = internal "blob verification failed"

  unfoldable pub verify_blobs : Dict ManifestFile → Option HttpError
  unfolding head_blob
  verify_blobs [] = none
  verify_blobs ((path, f) ∷ files) = elim (head_blob pf (key_of slug path f) f.size) [
    | some e ↦ some (blob_error f.hash e)
    | none ↦ verify_blobs files
  ]
