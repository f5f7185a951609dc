-- ===== src/DeleteDocument.antt =====
-- internal/server/service/document: `Delete`, the soft delete behind an Edit Token.
pub mod Laws
use mdfly.Common.{if◌then◌else◌, Str, is_empty, ℕ, Bool, not, Option, none, some}
use mdfly.Api.{code_invalid_edit_token}
use mdfly.Httpx.{HttpError, internal, unauthorized, forbidden}
use mdfly.Httpx
use mdfly.Documents.Table.{
  Status, pending, published, deleted, expired, abandoned, Document, Database, not_found,
  unavailable, gone, DbResult, found, failed,
}
use mdfly.Documents.Ops.{get_by_slug_any, soft_delete, matches_edit_token}
use mdfly.Documents.Tx.{TxLink, in_tx}
use mdfly.Publish.Service.{Service, purge_soon}
use mdfly.Publish.Commit.{call}
use mdfly.Publish.Update.{editable}

-- The database that the request leaves, its error if any, and the slug of the inline purge.
pub record Deletion : Type 0 where
  pub db : Database
  pub error : Option HttpError
  pub purged : Option Str

-- `softDelete`
unfoldable pub soft_delete_tx : TxLink → Str → ℕ → Database → Database × DbResult Document
soft_delete_tx link s now = in_tx link now (soft_delete s now)

module _ (sv : Service) where
  unfoldable pub verify_edit_token : Document → Str → Option HttpError
  unfolding is_empty
  verify_edit_token doc token =
      if is_empty token
      then some (unauthorized code_invalid_edit_token "missing edit token")
      else if is_empty doc.edit_token_hash
      then some (forbidden code_invalid_edit_token "document is not editable with an edit token")
      else if not (matches_edit_token sv.platform doc token)
      then some (forbidden code_invalid_edit_token "edit token does not match")
      else none

  unfoldable pub deletion : Database → Option HttpError → Deletion
  deletion d e = record { db = d; error = e; purged = none }

  unfoldable pub delete_reply : Str → Database × DbResult Document → Deletion
  delete_reply s (d, found _) = record { db = d; error = none; purged = purge_soon sv s }
  delete_reply s (d, failed not_found) = deletion d (some (Httpx.not_found "not found"))
  delete_reply s (d, failed gone) = deletion d (some (internal "failed to delete document"))
  delete_reply s (d, failed unavailable) = deletion d (some (internal "failed to delete document"))

  -- The checks on the row that was read, by its status.
  unfoldable pub delete_row :
      Status → TxLink → (Database → Database) → Str → Str → ℕ → Database → Document → Deletion
  delete_row pending link meanwhile s token now d doc =
      deletion d (some (Httpx.not_found "not found"))
  delete_row abandoned link meanwhile s token now d doc =
      deletion d (some (Httpx.not_found "not found"))
  delete_row deleted link meanwhile s token now d doc = deletion d (verify_edit_token doc token)
  delete_row expired link meanwhile s token now d doc = deletion d (verify_edit_token doc token)
  delete_row published link meanwhile s token now d doc = elim (verify_edit_token doc token) [
    | some e ↦ deletion d (some e)
    | none ↦ delete_reply s (soft_delete_tx link s now (meanwhile d))
  ]

  -- `meanwhile` is what other transactions do between the read and the delete.
  unfoldable pub delete :
      Bool → TxLink → (Database → Database) → Str → Str → ℕ → Database → Deletion
  delete loads link meanwhile s token now d = elim (call loads (get_by_slug_any s d)) [
    | failed not_found ↦ deletion d (some (Httpx.not_found "not found"))
    | failed gone ↦ deletion d (some (internal "failed to load document"))
    | failed unavailable ↦ deletion d (some (internal "failed to load document"))
    | found doc ↦ delete_row doc.status link meanwhile s token now d doc
  ]
