-- ===== src/Documents/Tx.antt =====
-- db.go: a transaction that joins one row change to the enqueue of its purge, as commitPublish,
-- commitUpdate and softDelete of the services use it. Until it commits nothing is visible, so it is
-- applied to one state of the database; a deferred rollback leaves that state as it was.
pub mod Atomic
use mdfly.Common.{if◌then◌else◌, ℕ, Bool, not, ◌&&◌}
use mdfly.Documents.Table.{Document, Database, unavailable, DbResult, found, failed}
use mdfly.Documents.Queue.{enqueue_purge}

-- The end of COMMIT: done, refused, or done with the answer lost, which the client sees as an error.
pub data CommitOutcome : Type 0 where
  applied rejected lost : CommitOutcome

-- Which of the calls to the database server get through.
pub record TxLink : Type 0 where
  pub begins : Bool
  pub writes : Bool
  pub enqueues : Bool
  pub commits : CommitOutcome

unfoldable pub finish :
    CommitOutcome → Document → Database → Database → Database × DbResult Document
finish applied r before after = (after, found r)
finish rejected r before after = (before, failed unavailable)
finish lost r before after = (after, failed unavailable)

unfoldable pub in_tx :
    TxLink → ℕ → (Database → Database × DbResult Document) → Database → Database × DbResult Document
unfolding enqueue_purge finish
in_tx link now statement d =
    let (d', result) = statement d in
    if not (link.begins && link.writes) then (d, failed unavailable) else elim result [
      | failed e ↦ (d, failed e)
      | found r ↦
          if link.enqueues
          then finish link.commits r d
              (record d' { purge_queue = enqueue_purge r.slug now d'.purge_queue })
          else (d, failed unavailable)
    ]
