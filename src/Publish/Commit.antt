-- ===== src/Publish/Commit.antt =====
-- publish.go: `Commit`, which checks the uploaded blobs and publishes the pending row.
pub mod Laws
pub mod Published
use mdfly.Common.{if◌then◌else◌, Str, ℕ, ◌+◌, Bool, none, some}
use mdfly.Api.{CommitRequest}
use mdfly.Httpx.{HttpError, ok, err, not_found, internal}
use mdfly.Documents.Table.{
  Document, Database, DbError, unavailable, gone, DbResult, found, failed, is_published, pending,
}
use mdfly.Documents.Table
use mdfly.Documents.Ops.{get_by_idempotency_key, publish, manifest_hash_hex}
use mdfly.Documents.Tx.{TxLink, in_tx}
use mdfly.Publish.Validate.{validate_commit}
use mdfly.Publish.Service.{
  Service, Outcome, CommitResult, commit_result, purge_soon, anon_expires_in,
}
use mdfly.Publish.Blobs.{verify_blobs}

-- Which calls of the database get through.
pub record CommitLink : Type 0 where
  pub loads : Bool
  pub tx : TxLink

unfoldable pub call : Bool → DbResult Document → DbResult Document
call gets_through r = if gets_through then r else failed unavailable

-- `commitPublish`
unfoldable pub commit_publish : TxLink → Str → ℕ → ℕ → Database → Database × DbResult Document
commit_publish link key expires now = in_tx link now (publish key expires now)

module _ (sv : Service) where
  unfoldable pub reply : Document → CommitResult
  reply doc = commit_result sv doc.slug (manifest_hash_hex doc)

  unfoldable pub refuse : Database → HttpError → Outcome CommitResult
  refuse d e = record { db = d; result = err e; purged = none }

  unfoldable pub commit_done : Database → DbResult Document → Outcome CommitResult
  commit_done d (failed Table.DbError.not_found) =
      refuse d (not_found "no pending document for idempotency_key")
  commit_done d (failed gone) = refuse d (internal "failed to publish document")
  commit_done d (failed unavailable) = refuse d (internal "failed to publish document")
  commit_done d (found doc) = record {
    db = d;
    result = ok (reply doc);
    purged = purge_soon sv doc.slug;
  }

  unfoldable pub commit_pending :
      TxLink → (Database → Database) → Str → ℕ → Database → Document → Outcome CommitResult
  commit_pending link meanwhile key now d doc = elim (sv.platform.unmarshal doc.manifest_json) [
    | none ↦ refuse d (internal "corrupt manifest")
    | some m ↦ elim (verify_blobs sv.platform doc.slug m.files_by_path) [
      | some e ↦ refuse d e
      | none ↦
          let (d', row) = commit_publish link key (now + anon_expires_in) now (meanwhile d) in
          commit_done d' row
    ]
  ]

  unfoldable pub commit_loaded :
      TxLink → (Database → Database) → Str → ℕ → Database → DbResult Document → Outcome CommitResult
  commit_loaded link meanwhile key now d (failed Table.DbError.not_found) =
      refuse d (not_found "no document for idempotency_key")
  commit_loaded link meanwhile key now d (failed gone) =
      refuse d (internal "failed to fetch document")
  commit_loaded link meanwhile key now d (failed unavailable) =
      refuse d (internal "failed to fetch document")
  commit_loaded link meanwhile key now d (found doc) =
      if is_published doc.status
      then record { db = d; result = ok (reply doc); purged = none }
      else commit_pending link meanwhile key now d doc

  -- `meanwhile` is what other transactions do between the first read and the write.
  unfoldable pub commit :
      CommitLink → (Database → Database) → CommitRequest → ℕ → Database → Outcome CommitResult
  commit link meanwhile req now d = elim (validate_commit req) [
    | some e ↦ refuse d e
    | none ↦
        commit_loaded link.tx meanwhile req.idempotency_key now d
          (call link.loads (get_by_idempotency_key req.idempotency_key d))
  ]
