-- ===== src/Documents/Steps.antt =====
-- Everything that can happen to the two tables, as a step relation: the statements and transactions
-- of internal/server/db that the services issue, and any change of the purge queue alone.
pub mod Rows
pub mod Tables
pub mod Reachable
use mdfly.Common.{Str, ℕ, Bool, List}
use mdfly.Common.Lookup.{find-append_some}
use mdfly.Platform.{Platform}
use mdfly.Documents.Table.{
  update_where, Document, Database, PurgeRow, has_slug, DbResult, found, failed, gone,
}
use mdfly.Documents.Ops.{
  InsertPendingParams, UpdateManifestParams, insert_pending, publish, soft_delete, update_manifest,
  get_by_slug, publish_guard, publish_set, soft_delete_set, update_guard, marshal_manifest,
  update_set, new_row, insert_row,
}
use mdfly.Documents.Sweep.{
  mark_expired, mark_abandoned, set_blobs_deleted_at, time_or_zero, expiry_due, pending_since,
}
use mdfly.Documents.Tx.{TxLink, in_tx}
use mdfly.Documents.Rows.{
  RowStep-refl, leads_refl, picked-KeepsRows, RowStep, KeepsRows, KeepsRows-refl, KeepsRows-trans,
  update_where-KeepsRows, leads_refl, RowStep-refl,
}
use mdfly.Documents.Invariant.{IsTable}
use mdfly.Documents.Selection.{in_candidates-holds}

module _ (pf : Platform) where
  pub data Step (d : Database) : Database → Type 0 where
    inserts : (p : InsertPendingParams) (now : ℕ) → Step d (insert_pending pf p now d).0
    publishes :
        (link : TxLink) (key : Str) (expires now : ℕ)
        → Step d (in_tx link now (publish key expires now) d).0
    updates :
        (link : TxLink) (p : UpdateManifestParams) (now : ℕ)
        → Step d (in_tx link now (update_manifest pf p now) d).0
    deletes : (link : TxLink) (s : Str) (now : ℕ) → Step d (in_tx link now (soft_delete s now) d).0
    expires_rows :
        (locked : Document → Bool) (by limit now : ℕ)
        → Step d (mark_expired locked by limit now d).0
    abandons_rows :
        (locked : Document → Bool) (older_than limit now : ℕ)
        → Step d (mark_abandoned locked older_than limit now d).0
    stamps_row : (id now : ℕ) → Step d (set_blobs_deleted_at id now d)
    changes_queue : (q : List PurgeRow) → Step d (record d { purge_queue = q })

  pub data Reach (d : Database) : Database → Type 0 where
    here : Reach d d
    next : {t u : Database} → Reach d t → Step t u → Reach d u
