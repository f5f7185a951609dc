-- ===== src/Publish/UpdateCommit.antt =====
-- update.go: `UpdateCommit`, the guarded overwrite of the live row.
pub mod Laws
pub mod Landing
pub mod Dispatch
pub mod Accepted
use mdfly.Common.{if◌then◌else◌, Str, str_eq, ℕ, ◌+◌, Bool, not, Option, none, some, [], ◌∷◌}
use mdfly.Common.Hex.{decode}
use mdfly.Api.{UpdateCommitRequest}
use mdfly.Httpx.{HttpError, Result, ok, err, bad_request, internal}
use mdfly.Manifest.Build.{Manifest}
use mdfly.Documents.Table.{
  Document, Database, not_found, unavailable, gone, DbResult, found, failed,
}
use mdfly.Documents.Ops.{UpdateManifestParams, update_manifest, get_by_slug, manifest_hash_hex}
use mdfly.Documents.Tx.{TxLink, in_tx}
use mdfly.Publish.Service.{
  Service, Outcome, CommitResult, commit_result, purge_soon, anon_expires_in,
}
use mdfly.Publish.Blobs.{verify_blobs}
use mdfly.Publish.Commit.{call}
use mdfly.Publish.Update.{
  Disposition, disp_applied, disp_apply, disp_conflict, classify_update, conflict_err,
  manifest_from_bundle, manifest_hash_of, load_editable,
}

-- Which calls of the database get through.
pub record UpdateLink : Type 0 where
  pub loads : Bool
  pub tx : TxLink
  pub rereads : Bool

-- What other transactions do before the write, and before the read that follows a lost write.
pub record Meanwhile : Type 0 where
  pub before_write : Database → Database
  pub before_reread : Database → Database

-- `parent`: nil for --force.
unfoldable pub parent_of : Str → Result (Option Str)
parent_of [] = ok none
parent_of (c ∷ s) = elim (decode (c ∷ s)) [
  | none ↦ err (bad_request "parent_manifest_hash is not valid hex")
  | some h ↦ ok (some h)
]

module _ (sv : Service) where
  -- `commitUpdate`
  unfoldable pub commit_update :
      TxLink → UpdateManifestParams → ℕ → Database → Database × DbResult Document
  commit_update link p now = in_tx link now (update_manifest sv.platform p now)

  unfoldable pub same_or_conflict : Str → DbResult Document → Result Document
  same_or_conflict next (failed _) = err conflict_err
  same_or_conflict next (found doc) =
      if str_eq (manifest_hash_hex doc) next then ok doc else err conflict_err

  -- `reconcileConcurrentUpdate`
  unfoldable pub reconcile_concurrent_update : Bool → Str → Manifest → Database → Result Document
  reconcile_concurrent_update rereads s m d = elim (manifest_hash_of sv m) [
    | err e ↦ err e
    | ok next ↦ same_or_conflict next (call rereads (get_by_slug s d))
  ]

  -- What `applyUpdate` makes of the transaction.
  unfoldable pub applied_update :
      UpdateLink
      → (Database → Database)
      → Str
      → Manifest
      → Database
      → DbResult Document
      → Database × Result Document
  applied_update link later s m d (found doc) = (d, ok doc)
  applied_update link later s m d (failed not_found) =
      (later d, reconcile_concurrent_update link.rereads s m (later d))
  applied_update link later s m d (failed gone) = (d, err (internal "failed to update document"))
  applied_update link later s m d (failed unavailable) =
      (d, err (internal "failed to update document"))

  unfoldable pub apply_update :
      UpdateLink → Meanwhile → Str → Manifest → Str → ℕ → Database → Database × Result Document
  apply_update link mw s m parent_hex now d = elim (parent_of parent_hex) [
    | err e ↦ (d, err e)
    | ok parent ↦
        let params : UpdateManifestParams = record {
          slug = s;
          manifest = m;
          parent_manifest_hash = parent;
          expires_at = now + anon_expires_in;
        } in
        let written = commit_update link.tx params now (mw.before_write d) in
        applied_update link mw.before_reread s m written.0 written.1
  ]

  unfoldable pub refuse : Database → HttpError → Outcome CommitResult
  refuse d e = record { db = d; result = err e; purged = none }

  unfoldable pub update_reply : Database × Result Document → Outcome CommitResult
  unfolding refuse
  update_reply (d, err e) = refuse d e
  update_reply (d, ok doc) = record {
    db = d;
    result = ok (commit_result sv doc.slug (manifest_hash_hex doc));
    purged = purge_soon sv doc.slug;
  }

  -- The switch of `UpdateCommit` and what follows it.
  unfoldable pub dispatch :
      Disposition
      → UpdateLink
      → Meanwhile
      → UpdateCommitRequest
      → Manifest
      → Document
      → ℕ
      → Database
      → Outcome CommitResult
  unfolding refuse
  dispatch disp_applied link mw req m doc now d = record {
    db = d;
    result = ok (commit_result sv doc.slug (manifest_hash_hex doc));
    purged = none;
  }
  dispatch disp_conflict link mw req m doc now d = refuse d conflict_err
  dispatch disp_apply link mw req m doc now d =
      elim (verify_blobs sv.platform doc.slug m.files_by_path) [
        | some e ↦ refuse d e
        | none ↦ update_reply (apply_update link mw doc.slug m req.parent_manifest_hash now d)
      ]

  unfoldable pub update_loaded :
      UpdateLink
      → Meanwhile
      → UpdateCommitRequest
      → Manifest
      → Document
      → ℕ
      → Database
      → Outcome CommitResult
  unfolding refuse
  update_loaded link mw req m doc now d = elim (manifest_hash_of sv m) [
    | err e ↦ refuse d e
    | ok next ↦
        dispatch (classify_update (manifest_hash_hex doc) req.parent_manifest_hash next) link mw req
          m doc now d
  ]

  unfoldable pub update_commit :
      UpdateLink → Meanwhile → UpdateCommitRequest → Str → ℕ → Database → Outcome CommitResult
  unfolding refuse
  update_commit link mw req token now d = elim (manifest_from_bundle req.bundle) [
    | err e ↦ refuse d e
    | ok m ↦ elim (load_editable sv link.loads req.target_slug token d) [
      | err e ↦ refuse d e
      | ok (doc, stored) ↦ update_loaded link mw req m doc now d
    ]
  ]
