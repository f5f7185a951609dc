-- ===== src/Publish/Update.antt =====
-- update.go: an update of a published document under optimistic concurrency.
use mdfly.Common.{
  if◌then◌else◌, any, Str, str_eq, is_empty, Bool, true, false, not, ◌&&◌, ◌||◌, Option, none, some,
  List, [], ◌∷◌,
}
use mdfly.Common.Hex.{encode}
use mdfly.Common.Dict.{Dict, insert}
use mdfly.Api.{BundleDto, UpdateInitRequest, code_update_conflict, code_invalid_edit_token}
use mdfly.Httpx.{
  HttpError, Result, ok, err, ◌>>=◌, ◌>>◌, bad_request, internal, unauthorized, forbidden, conflict,
}
use mdfly.Httpx
use mdfly.Manifest.Build.{Manifest, ManifestFile, from_dto}
use mdfly.Manifest.Keys.{ext_from_path}
use mdfly.Blobs.{presign_put}
use mdfly.Documents.Table.{Document, Database, not_found, unavailable, gone, found, failed}
use mdfly.Documents.Ops.{get_by_slug, manifest_hash, manifest_hash_hex, matches_edit_token}
use mdfly.Publish.Service.{Service}
use mdfly.Publish.Blobs.{key_of}
use mdfly.Publish.Commit.{call}

pub data Disposition : Type 0 where
  disp_applied disp_apply disp_conflict : Disposition

unfoldable pub classify_update : Str → Str → Str → Disposition
unfolding str_eq is_empty
classify_update current parent next =
    if str_eq current next
    then disp_applied
    else if is_empty parent || str_eq current parent
    then disp_apply
    else disp_conflict

abbrev pub conflict_err : HttpError
conflict_err =
    conflict code_update_conflict
      "document changed elsewhere; re-run to pick up the change, or pass --force to overwrite"

unfoldable pub manifest_from_bundle : BundleDto → Result Manifest
manifest_from_bundle dto = elim (from_dto dto) [
  | none ↦ err (bad_request "bundle.root_path not present in bundle.files")
  | some m ↦ ok m
]

-- `blobIdentities`: the (hash, ext) pairs of a manifest.
unfoldable pub blob_identities : Dict ManifestFile → List (Str × Str)
blob_identities [] = []
blob_identities ((path, f) ∷ files) = (f.hash, ext_from_path path) ∷ blob_identities files

unfoldable pub same_identity : Str → Str → Str × Str → Bool
unfolding str_eq
same_identity hash e (hash', e') = str_eq hash hash' && str_eq e e'

module _ (sv : Service) where
  unfoldable pub manifest_hash_of : Manifest → Result Str
  manifest_hash_of m = elim (manifest_hash sv.platform m) [
    | none ↦ err (internal "manifest hashing failed")
    | some h ↦ ok (encode h)
  ]

  unfoldable pub verify_edit_token : Document → Str → Option HttpError
  unfolding is_empty
  verify_edit_token doc token =
      if is_empty token
      then some (unauthorized code_invalid_edit_token "missing edit token")
      else if is_empty doc.edit_token_hash
      then some (forbidden code_invalid_edit_token "document is not editable with an edit token")
      else if not (matches_edit_token sv.platform doc token)
      then some (forbidden code_invalid_edit_token "edit token does not match")
      else none

  unfoldable pub editable : Document → Str → Result (Document × Manifest)
  editable doc token = elim (verify_edit_token doc token) [
    | some e ↦ err e
    | none ↦ elim (sv.platform.unmarshal doc.manifest_json) [
      | none ↦ err (internal "corrupt manifest")
      | some stored ↦ ok (doc, stored)
    ]
  ]

  -- `loads` says whether the read gets through.
  unfoldable pub load_editable : Bool → Str → Str → Database → Result (Document × Manifest)
  load_editable loads s token d = elim (call loads (get_by_slug s d)) [
    | failed gone ↦ err (Httpx.gone "document has been deleted")
    | failed not_found ↦ err (Httpx.not_found "not found")
    | failed unavailable ↦ err (internal "failed to load document")
    | found doc ↦ editable doc token
  ]

  -- The loop of `presignNewBlobs`.
  unfoldable pub presign_new_blobs :
      Str → List (Str × Str) → List Str → Dict Str → Dict ManifestFile → Result (Dict Str)
  unfolding same_identity str_eq presign_put insert
  presign_new_blobs s stored seen urls [] = ok urls
  presign_new_blobs s stored seen urls ((path, f) ∷ files) =
      elim (any (same_identity f.hash (ext_from_path path)) stored
        || any (str_eq (key_of s path f)) seen) [
          | true ↦ presign_new_blobs s stored seen urls files
          | false ↦ elim (presign_put sv.platform (key_of s path f) f.size) [
            | none ↦ err (internal "failed to generate presigned URLs")
            | some url ↦
                presign_new_blobs s stored (key_of s path f ∷ seen) (insert path url urls) files
          ]
        ]

  unfoldable pub unless_conflict : Disposition → Result (Dict Str) → Result (Dict Str)
  unless_conflict disp_conflict r = err conflict_err
  unless_conflict _ r = r

  -- `UpdateInit`, which writes nothing.
  unfoldable pub update_init : Bool → UpdateInitRequest → Str → Database → Result (Dict Str)
  unfolding unless_conflict
  update_init loads req token d = do
    incoming ← manifest_from_bundle req.bundle
    (doc, stored) ← load_editable loads req.target_slug token d
    next ← manifest_hash_of incoming
    unless_conflict (classify_update (manifest_hash_hex doc) req.parent_manifest_hash next) (
        presign_new_blobs doc.slug (blob_identities stored.files_by_path) [] []
          incoming.files_by_path)
