-- ===== src/Documents/Tx/Atomic.antt =====
-- The row change and the enqueue of its purge stand or fall together (ADR-0012).
use mdfly.Common.{ℕ, ◌≡◌, ◌⊎◌, inl, inr, arith}
use mdfly.Documents.Tx.{in_tx, TxLink}
use mdfly.Documents.Queue.Laws.{IsQueued, enqueue_purge-IsQueued}
use mdfly.Documents.Table.{Document, Database, DbResult, found, DbError, failed, DbResult-cases}
use mdfly.Documents.Queue.{enqueue_purge}

module _ (link : TxLink) (now : ℕ) (statement : Database → Database × DbResult Document)
    (d : Database) where
  -- The statement's rows with their purge queued.
  abbrev pub Written : Document → Database → Type 0
  Written r after =
      ((statement d).1 ≡ found r)
      × (after.documents ≡ (statement d).0.documents)
      × IsQueued r.slug now after.purge_queue

  written :
      (r : Document) (after : Database)
      → (statement d).1 ≡ found r
      → after.documents ≡ (statement d).0.documents
      → after.purge_queue ≡ enqueue_purge r.slug now (statement d).0.purge_queue
      → Written r after
  written r after e p q =
      (e, p, rw q (enqueue_purge-IsQueued r.slug now (statement d).0.purge_queue))

  in_tx_failed : (e : DbError) → (statement d).1 ≡ failed e → (in_tx link now statement d).0 ≡ d
  unfolding in_tx
  in_tx_failed e h = ground arith

  in_tx_found :
      (r : Document)
      → (statement d).1 ≡ found r
      → ((in_tx link now statement d).0 ≡ d)
        ⊎ (((in_tx link now statement d).0.documents ≡ (statement d).0.documents)
            × ((in_tx link now statement d).0.purge_queue
                ≡ enqueue_purge r.slug now (statement d).0.purge_queue))
  unfolding in_tx
  in_tx_found r h = ground arith

  -- Whatever calls fail, a transaction leaves the database as it was, or it leaves the rows as its
  -- statement made them, together with a queued and due purge of the slug of the statement's row.
  pub in_tx_atomic :
      ((in_tx link now statement d).0 ≡ d)
      ⊎ ((r : Document) × Written r (in_tx link now statement d).0)
  in_tx_atomic = elim (DbResult-cases (statement d).1) [
    | inl (e, h) ↦ inl (in_tx_failed e h)
    | inr (r, h) ↦ elim (in_tx_found r h) [
      | inl same ↦ inl same
      | inr (p, q) ↦ inr (r, written r (in_tx link now statement d).0 h p q)
    ]
  ]

  in_tx_answered :
      (r : Document)
      → (in_tx link now statement d).1 ≡ found r
      → ((statement d).1 ≡ found r)
        × ((in_tx link now statement d).0.documents ≡ (statement d).0.documents)
        × ((in_tx link now statement d).0.purge_queue
            ≡ enqueue_purge r.slug now (statement d).0.purge_queue)
  unfolding in_tx
  in_tx_answered r h = ground arith

  -- A transaction that answers with a row has written.
  pub in_tx-Written :
      (r : Document)
      → (in_tx link now statement d).1 ≡ found r
      → Written r (in_tx link now statement d).0
  in_tx-Written r h =
      let (e, p, q) = in_tx_answered r h in written r (in_tx link now statement d).0 e p q
