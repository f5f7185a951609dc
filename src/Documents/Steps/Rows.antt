-- ===== src/Documents/Steps/Rows.antt =====
-- Each step keeps the row of each slug, in a later version.
use mdfly.Common.{Option-cases, Str, ℕ, ◌≡◌, refl, ◌⊎◌, inl, inr, Bool, true, [], ◌∷◌, ◌++◌, arith}
use mdfly.Common.Lookup.{find-append_some}
use mdfly.Platform.{Platform}
use mdfly.Documents.Table.{update_where, Document, Database, has_slug, DbResult}
use mdfly.Documents.Ops.{
  InsertPendingParams, UpdateManifestParams, insert_pending, publish, soft_delete, update_manifest,
  publish_guard, publish_set, soft_delete_set, update_guard, marshal_manifest, update_set, new_row,
  insert_row,
}
use mdfly.Documents.Sweep.{
  mark_expired, mark_abandoned, set_blobs_deleted_at, time_or_zero, candidates, in_candidates,
  expire_set, abandon_set, stamp_set, expirable, abandonable, stamp_guard,
}
use mdfly.Documents.Tx.{TxLink, in_tx}
use mdfly.Documents.Rows.{
  RowStep-refl, leads_refl, picked-KeepsRows, RowStep, KeepsRows, KeepsRows-refl,
  update_where-KeepsRows, leads_refl, RowStep-refl,
}
use mdfly.Documents.Invariant.{IsTable}
use mdfly.Documents.Selection.{in_candidates-holds}
use mdfly.Documents.Steps.{
  Step, inserts, publishes, updates, deletes, expires_rows, abandons_rows, stamps_row,
  changes_queue,
}

module _ (pf : Platform) where
  insert_row_documents :
      (p : InsertPendingParams) (m : Str × Str) (now : ℕ) (d : Database)
      → ((insert_row pf p m now d).0.documents ≡ d.documents)
        ⊎ ((insert_row pf p m now d).0.documents
            ≡ d.documents ++ (new_row pf p m.0 m.1 d.next_id now ∷ []))
  unfolding insert_row
  insert_row_documents p (j, h) now d = ground arith

  insert_row-KeepsRows :
      (p : InsertPendingParams) (m : Str × Str) (now : ℕ) (d : Database)
      → KeepsRows d.documents (insert_row pf p m now d).0.documents
  insert_row-KeepsRows p m now d s r e = elim (insert_row_documents p m now d) [
    | inl same ↦ rw same (r, e, RowStep-refl r)
    | inr more ↦ rw more (r, find-append_some (has_slug s) d.documents _ e, RowStep-refl r)
  ]

  insert_pending-KeepsRows :
      (p : InsertPendingParams) (now : ℕ) (d : Database)
      → KeepsRows d.documents (insert_pending pf p now d).0.documents
  unfolding insert_pending
  insert_pending-KeepsRows p now d = elim (Option-cases (marshal_manifest pf p.manifest)) [
    | inl e ↦ rw (e, insert_pending) (KeepsRows-refl d.documents)
    | inr (m, e) ↦ rw (e, insert_pending) (insert_row-KeepsRows p m now d)
  ]

  publish_documents :
      (key : Str) (expires now : ℕ) (d : Database)
      → ((publish key expires now d).0.documents ≡ d.documents)
        ⊎ ((publish key expires now d).0.documents
            ≡ update_where (publish_guard key) (publish_set expires now) d.documents)
  unfolding publish
  publish_documents key expires now d = ground arith

  publish_set-RowStep :
      (key : Str) (expires now : ℕ) (r : Document)
      → publish_guard key r ≡ true
      → RowStep r (publish_set expires now r)
  publish_set-RowStep key expires now r h = ground arith

  publish-KeepsRows :
      (key : Str) (expires now : ℕ) (d : Database)
      → KeepsRows d.documents (publish key expires now d).0.documents
  publish-KeepsRows key expires now d = elim (publish_documents key expires now d) [
    | inl same ↦ rw same (KeepsRows-refl d.documents)
    | inr changed ↦ rw changed (
        update_where-KeepsRows (publish_guard key) (publish_set expires now)
          (publish_set-RowStep key expires now) d.documents)
  ]

  soft_delete_set-RowStep :
      (s : Str) (now : ℕ) (r : Document) → has_slug s r ≡ true → RowStep r (soft_delete_set now r)
  soft_delete_set-RowStep s now r h = ground arith

  soft_delete-KeepsRows :
      (s : Str) (now : ℕ) (d : Database) → KeepsRows d.documents (soft_delete s now d).0.documents
  unfolding soft_delete
  soft_delete-KeepsRows s now d =
      update_where-KeepsRows (has_slug s) (soft_delete_set now) (soft_delete_set-RowStep s now)
        d.documents

  update_set-RowStep :
      (p : UpdateManifestParams) (m : Str × Str) (now : ℕ) (r : Document)
      → update_guard p r ≡ true
      → RowStep r (update_set pf p m now r)
  unfolding update_set
  update_set-RowStep p (j, h) now r g = ground (arith, leads_refl r.status)

  update_manifest-KeepsRows :
      (p : UpdateManifestParams) (now : ℕ) (d : Database)
      → KeepsRows d.documents (update_manifest pf p now d).0.documents
  unfolding update_manifest
  update_manifest-KeepsRows p now d = elim (Option-cases (marshal_manifest pf p.manifest)) [
    | inl e ↦ rw (e, update_manifest) (KeepsRows-refl d.documents)
    | inr (m, e) ↦
        rw (e, update_manifest)
          (update_where-KeepsRows (update_guard p) (update_set pf p m now)
            (update_set-RowStep p m now) d.documents)
  ]

  in_tx_documents :
      (link : TxLink) (now : ℕ) (statement : Database → Database × DbResult Document) (d : Database)
      → ((in_tx link now statement d).0.documents ≡ d.documents)
        ⊎ ((in_tx link now statement d).0.documents ≡ (statement d).0.documents)
  unfolding in_tx
  in_tx_documents link now statement d = ground arith

  in_tx-KeepsRows :
      (link : TxLink) (now : ℕ) (statement : Database → Database × DbResult Document) (d : Database)
      → KeepsRows d.documents (statement d).0.documents
      → KeepsRows d.documents (in_tx link now statement d).0.documents
  in_tx-KeepsRows link now statement d h = elim (in_tx_documents link now statement d) [
    | inl same ↦ rw same (KeepsRows-refl d.documents)
    | inr changed ↦ rw changed h
  ]

  mark_expired-KeepsRows :
      (locked : Document → Bool) (by limit now : ℕ) (d : Database)
      → IsTable d
      → KeepsRows d.documents (mark_expired locked by limit now d).0.documents
  unfolding mark_expired
  mark_expired-KeepsRows locked by limit now d t =
      picked-KeepsRows
        (in_candidates
          (candidates (expirable locked by) (λ r. time_or_zero r.expires_at) limit d.documents))
        (expire_set now) d.documents t.unique_ids (λ r. refl)
        λ r l c. ground (
          arith,
          in_candidates-holds (expirable locked by) (λ r. time_or_zero r.expires_at) limit
              d.documents r t.unique_ids l c,
        )

  mark_abandoned-KeepsRows :
      (locked : Document → Bool) (older_than limit now : ℕ) (d : Database)
      → IsTable d
      → KeepsRows d.documents (mark_abandoned locked older_than limit now d).0.documents
  unfolding mark_abandoned
  mark_abandoned-KeepsRows locked older_than limit now d t =
      picked-KeepsRows
        (in_candidates
          (candidates (abandonable locked older_than) (λ r. r.created_at) limit d.documents))
        (abandon_set now) d.documents t.unique_ids (λ r. refl)
        λ r l c. ground (
          arith,
          in_candidates-holds (abandonable locked older_than) (λ r. r.created_at) limit d.documents
              r t.unique_ids l c,
        )

  stamp-KeepsRows :
      (id now : ℕ) (d : Database) → KeepsRows d.documents (set_blobs_deleted_at id now d).documents
  unfolding set_blobs_deleted_at
  stamp-KeepsRows id now d =
      update_where-KeepsRows (stamp_guard id) (stamp_set now)
        (λ r h. ground (arith, leads_refl r.status)) d.documents

  -- Every step keeps the row of each slug, in a later version.
  pub Step-KeepsRows :
      {d d' : Database} → IsTable d → Step pf d d' → KeepsRows d.documents d'.documents
  Step-KeepsRows {d} t (inserts p now) = insert_pending-KeepsRows p now d
  Step-KeepsRows {d} t (publishes link key expires now) =
      in_tx-KeepsRows link now (publish key expires now) d (publish-KeepsRows key expires now d)
  Step-KeepsRows {d} t (updates link p now) =
      in_tx-KeepsRows link now (update_manifest pf p now) d (update_manifest-KeepsRows p now d)
  Step-KeepsRows {d} t (deletes link s now) =
      in_tx-KeepsRows link now (soft_delete s now) d (soft_delete-KeepsRows s now d)
  Step-KeepsRows {d} t (expires_rows locked by limit now) =
      mark_expired-KeepsRows locked by limit now d t
  Step-KeepsRows {d} t (abandons_rows locked older_than limit now) =
      mark_abandoned-KeepsRows locked older_than limit now d t
  Step-KeepsRows {d} t (stamps_row id now) = stamp-KeepsRows id now d
  Step-KeepsRows {d} t (changes_queue q) = KeepsRows-refl d.documents
