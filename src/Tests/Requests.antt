-- ===== src/Tests/Requests.antt =====
-- Requests on the small world.
use mdfly.Publish.Validate.{validate_commit}
use mdfly.Documents.Table.{Document, published}
use mdfly.Publish.Commit.{
  call, CommitLink, commit, commit_publish, reply, commit_done, commit_pending, commit_loaded,
}
use mdfly.Documents.Steps.{here, next, deletes, Reach}
use mdfly.Manifest.Build.{Manifest}
use mdfly.Documents.Tx.{in_tx}
use mdfly.Documents.Ops.{
  get_by_slug_any, get_by_slug, matches_edit_token, manifest_hash, manifest_hash_hex,
  get_by_idempotency_key, soft_delete, publish,
}
use mdfly.Common.Hex.{encode}
use mdfly.Publish.Blobs.{verify_blobs}
use mdfly.Common.{codes, str_eq, pos, ◌≡◌, refl, ◌⊎◌, true, none, some, [], ◌∷◌}
use mdfly.Tests.World.{platform, service, database, database-IsTable, tx_link, idle}
use mdfly.Httpx.{ok, forbidden}
use mdfly.Documents.Table.{found, failed, gone}
use mdfly.Publish.Service.{commit_result}
use mdfly.Publish.UpdateCommit
use mdfly.Publish.Update
use mdfly.Publish.Commit
use mdfly.DeleteDocument
use mdfly.Api.{BundleDto, UpdateCommitRequest, code_invalid_edit_token, CommitRequest}
use mdfly.Publish.UpdateCommit.{UpdateLink, Meanwhile}
use mdfly.DeleteDocument.{delete, soft_delete_tx, deletion, delete_reply, delete_row}
use mdfly.Documents.Invariant.{IsTable}
use mdfly.Documents.Rows.{KeepsRows}
use mdfly.Documents.Steps.Reachable.{Reach-IsTable, Reach-KeepsRows, gone_for_ever, is_gone}
use mdfly.Documents.Tx.Atomic.{Written, in_tx_atomic}
use mdfly.Publish.Commit.Published.{IsPublished, commit-Committed}
use mdfly.Publish.Blobs.Uploaded.{FileStored}
use mdfly.Common.{All}
use mdfly.Documents.Ops.Laws.{Opens}
use mdfly.DeleteDocument.Laws.{IsRemoved, delete-Deleted}

abbrev bundle : BundleDto
bundle = record {
  root_path = codes "b.md";
  project_root = [];
  files = record { path = codes "b.md"; hash = codes "00"; size = pos 3 } ∷ [];
}

abbrev update_request : UpdateCommitRequest
update_request = record {
  target_slug = codes "live";
  parent_manifest_hash = codes "612e6d64";
  bundle = bundle;
}

abbrev update_link : UpdateLink
update_link = record { loads = true; tx = tx_link; rereads = true }

abbrev meanwhile : Meanwhile
meanwhile = record { before_write = idle; before_reread = idle }

abbrev commit_link : CommitLink
commit_link = record { loads = true; tx = tx_link }

abbrev commit_request : CommitRequest
commit_request = record { idempotency_key = codes "key-new" }

commit_accepted :
    (commit service commit_link idle commit_request 5 database).result
    ≡ ok (commit_result service (codes "new") (codes "612e6d64"))
unfolding commit validate_commit Commit.commit_loaded call get_by_idempotency_key str_eq
    Commit.commit_pending verify_blobs Commit.commit_done Commit.commit_publish in_tx publish
    Commit.reply manifest_hash_hex encode delete get_by_slug_any DeleteDocument.delete_row
    DeleteDocument.verify_edit_token matches_edit_token DeleteDocument.delete_reply
    DeleteDocument.soft_delete_tx soft_delete DeleteDocument.deletion get_by_slug
commit_accepted = refl

commit-Committed_example :
    (r : Document) × ((doc : Document) × ((get_by_idempotency_key (codes "key-new") database
          ≡ found r)
        × (((doc.status ≡ published)
              × ((codes "new" ≡ doc.slug) × (codes "612e6d64" ≡ encode doc.manifest_hash)))
            × (((r ≡ doc)
                  × ((commit service commit_link idle commit_request 5 database).db ≡ database))
                ⊎ (((m : Manifest) × ((platform.unmarshal r.manifest_json ≡ some m)
                        × All (FileStored platform r.slug) m.files_by_path))
                    × IsPublished
                        (codes "key-new")
                        5
                        database
                        (commit service commit_link idle commit_request 5 database).db
                        doc)))))
commit-Committed_example =
    commit-Committed service commit_link idle commit_request 5 database database-IsTable
      commit_accepted

delete_accepted :
    (delete service true tx_link idle (codes "live") (codes "token") 5 database).error ≡ none
unfolding delete call get_by_slug_any str_eq DeleteDocument.delete_row
    DeleteDocument.verify_edit_token matches_edit_token DeleteDocument.delete_reply
    DeleteDocument.soft_delete_tx in_tx soft_delete DeleteDocument.deletion get_by_slug
delete_accepted = refl

delete-Deleted_example :
    (r : Document) × ((get_by_slug_any (codes "live") database ≡ found r)
      × (Opens platform r (codes "token")
          × (((is_gone r.status ≡ true)
                × ((delete service true tx_link idle (codes "live") (codes "token") 5 database).db
                    ≡ database))
              ⊎ ((r.status ≡ published)
                  × IsRemoved service
                      (codes "live")
                      5
                      database
                      (delete service true tx_link idle
                        (codes "live")
                        (codes "token")
                        5
                        database).db))))
delete-Deleted_example =
    delete-Deleted service true tx_link idle (codes "live") (codes "token") 5 database
      delete_accepted

-- The wrong token changes nothing and kicks off no purge.
delete_refused :
    delete service true tx_link idle (codes "live") (codes "guess") 5 database ≡ record {
      db = database;
      error = some (forbidden code_invalid_edit_token "edit token does not match");
      purged = none;
    }
unfolding delete call get_by_slug_any str_eq DeleteDocument.delete_row
    DeleteDocument.verify_edit_token matches_edit_token DeleteDocument.deletion get_by_slug
delete_refused = refl

abbrev deletion_run :
    Reach platform database (in_tx tx_link 5 (soft_delete (codes "live") 5) database).0
deletion_run = next here (deletes tx_link (codes "live") 5)

in_tx_atomic_example :
    ((in_tx tx_link 5 (soft_delete (codes "live") 5) database).0 ≡ database)
    ⊎ ((r : Document) × Written tx_link 5
          (soft_delete (codes "live") 5)
          database
          r
          (in_tx tx_link 5 (soft_delete (codes "live") 5) database).0)
in_tx_atomic_example = in_tx_atomic tx_link 5 (soft_delete (codes "live") 5) database

Reach-IsTable_example : IsTable (in_tx tx_link 5 (soft_delete (codes "live") 5) database).0
Reach-IsTable_example = Reach-IsTable platform database-IsTable deletion_run

Reach-KeepsRows_example :
    KeepsRows database.documents
      (in_tx tx_link 5 (soft_delete (codes "live") 5) database).0.documents
Reach-KeepsRows_example = Reach-KeepsRows platform database-IsTable deletion_run

old_is_gone : get_by_slug (codes "old") database ≡ failed gone
unfolding get_by_slug str_eq
old_is_gone = refl

gone_for_ever_example :
    get_by_slug (codes "old") (in_tx tx_link 5 (soft_delete (codes "live") 5) database).0
    ≡ failed gone
gone_for_ever_example =
    gone_for_ever platform (codes "old") database-IsTable deletion_run old_is_gone
