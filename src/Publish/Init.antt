-- ===== src/Publish/Init.antt =====
-- publish.go: `Init`, which reserves a slug with a pending row and presigns the uploads.
pub mod Retry
use mdfly.Common.{if◌then◌else◌, Str, str_eq, ℕ, Bool, false, not, Option, none, some, []}
use mdfly.Common.Dict.{Dict}
use mdfly.Api.{InitRequest, code_idempotency_payload_mismatch}
use mdfly.Httpx.{HttpError, Result, ok, err, ◌>>=◌, ◌>>◌, bad_request, internal, unprocessable}
use mdfly.Manifest.Build.{Manifest, from_dto}
use mdfly.Slug.{generate_slug}
use mdfly.Documents.Table.{Document, Database, DbResult, found, failed}
use mdfly.Documents.Ops.{InsertPendingParams, insert_pending, manifest_hash}
use mdfly.Publish.Validate.{validate_init}
use mdfly.Publish.Service.{Service}
use mdfly.Publish.Blobs.{build_presigned_urls}

pub record InitResult : Type 0 where
  pub slug : Str
  pub presigned_urls : Dict Str
  pub inline_accept : Bool

module _ (sv : Service) where
  unfoldable pub ensure_payload_matches : Document → Manifest → Option HttpError
  ensure_payload_matches doc m = elim (manifest_hash sv.platform m) [
    | none ↦ some (internal "manifest hashing failed")
    | some incoming ↦
        if str_eq incoming doc.manifest_hash
        then none
        else some (
            unprocessable code_idempotency_payload_mismatch
              "idempotency_key reused with a different payload")
  ]

  unfoldable pub init_reply : Manifest → DbResult Document → Result InitResult
  init_reply m (failed _) = err (internal "failed to create document")
  init_reply m (found doc) = do
    ensure_payload_matches doc m
    urls ← build_presigned_urls sv.platform doc.slug [] [] m.files_by_path
    ok (record { slug = doc.slug; presigned_urls = urls; inline_accept = false })

  unfoldable pub init_write :
      InitRequest → Manifest → Str → Bool → ℕ → Database → Database × Result InitResult
  init_write req m s inserts now d =
      let params : InsertPendingParams = record {
        slug = s;
        idempotency_key = req.idempotency_key;
        manifest = m;
        edit_token = req.edit_token;
      } in
      let write = insert_pending sv.platform params now d in
      if inserts
      then (write.0, init_reply m write.1)
      else (d, err (internal "failed to create document"))

  -- `inserts` says whether the call of the database gets through.
  unfoldable pub init :
      (ℕ → Option ℕ) → Bool → InitRequest → ℕ → Database → Database × Result InitResult
  init rand inserts req now d = elim (validate_init req) [
    | some e ↦ (d, err e)
    | none ↦ elim (from_dto req.bundle) [
      | none ↦ (d, err (bad_request "bundle.root_path not present in bundle.files"))
      | some m ↦ elim (generate_slug rand) [
        | none ↦ (d, err (internal "slug generation failed"))
        | some s ↦ init_write req m s inserts now d
      ]
    ]
  ]
