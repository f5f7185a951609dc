-- ===== src/Documents/Steps/Tables.antt =====
-- Each step keeps the constraints of the table.
use mdfly.Common.{
  Bool-cases, Option-cases, find, any, Str, ℕ, ◌≡◌, refl, ◌⊎◌, inl, inr, List, arith,
}
use mdfly.Platform.{Platform}
use mdfly.Documents.Table.{Document, Database, has_slug, DbResult, has_key}
use mdfly.Documents.Ops.{
  InsertPendingParams, UpdateManifestParams, insert_pending, publish, soft_delete, update_manifest,
  publish_guard, publish_set, soft_delete_set, update_guard, marshal_manifest, update_set, new_row,
  insert_row,
}
use mdfly.Documents.Sweep.{
  mark_expired, mark_abandoned, set_blobs_deleted_at, in_candidates, sweep_update, expire_set,
  abandon_set, stamp_set, stamp_guard,
}
use mdfly.Documents.Tx.{TxLink, in_tx}
use mdfly.Documents.Invariant.{
  IsTable, SameKeys, update_where-IsTable, append-IsTable, bump-IsTable,
}
use mdfly.Documents.Steps.{
  Step, inserts, publishes, updates, deletes, expires_rows, abandons_rows, stamps_row,
  changes_queue,
}

IsTable-eq :
    (d e : Database) → d.documents ≡ e.documents → d.next_id ≡ e.next_id → IsTable e → IsTable d
IsTable-eq d e p q t = record {
  unique_ids = rw p t.unique_ids;
  ids_below = rw (p, q) t.ids_below;
  unique_slugs = rw p t.unique_slugs;
  unique_keys = rw p t.unique_keys;
}

in_tx_tables :
    (link : TxLink) (now : ℕ) (statement : Database → Database × DbResult Document) (d : Database)
    → (((in_tx link now statement d).0.documents ≡ d.documents)
        × ((in_tx link now statement d).0.next_id ≡ d.next_id))
      ⊎ (((in_tx link now statement d).0.documents ≡ (statement d).0.documents)
          × ((in_tx link now statement d).0.next_id ≡ (statement d).0.next_id))
unfolding in_tx
in_tx_tables link now statement d = ground arith

in_tx-IsTable :
    (link : TxLink) (now : ℕ) (statement : Database → Database × DbResult Document) (d : Database)
    → IsTable d
    → IsTable (statement d).0
    → IsTable (in_tx link now statement d).0
in_tx-IsTable link now statement d t u = elim (in_tx_tables link now statement d) [
  | inl (p, q) ↦ IsTable-eq _ d p q t
  | inr (p, q) ↦ IsTable-eq _ (statement d).0 p q u
]

publish-IsTable :
    (key : Str) (expires now : ℕ) (d : Database) → IsTable d → IsTable (publish key expires now d).0
unfolding publish
publish-IsTable key expires now d t = elim (Option-cases (find (publish_guard key) d.documents)) [
  | inl e ↦ rw (e, publish) t
  | inr (r, e) ↦
      rw (e, publish)
        (update_where-IsTable (publish_guard key) (publish_set expires now) (λ r. ground arith) d t)
]

soft_delete-IsTable :
    (s : Str) (now : ℕ) (d : Database) → IsTable d → IsTable (soft_delete s now d).0
unfolding soft_delete
soft_delete-IsTable s now d t =
    update_where-IsTable (has_slug s) (soft_delete_set now) (λ r. ground arith) d t

sweep_update-IsTable :
    (cs : List Document) (f : Document → Document)
    → ((r : Document) → SameKeys r (f r))
    → (d : Database) → IsTable d
    → IsTable (sweep_update cs f d).0
unfolding sweep_update
sweep_update-IsTable cs f h d t = update_where-IsTable (in_candidates cs) f h d t

set_blobs_deleted_at-IsTable :
    (id now : ℕ) (d : Database) → IsTable d → IsTable (set_blobs_deleted_at id now d)
unfolding set_blobs_deleted_at
set_blobs_deleted_at-IsTable id now d t =
    update_where-IsTable (stamp_guard id) (stamp_set now) (λ r. ground arith) d t

module _ (pf : Platform) where
  insert_row-IsTable :
      (p : InsertPendingParams) (m : Str × Str) (now : ℕ) (d : Database)
      → IsTable d
      → IsTable (insert_row pf p m now d).0
  unfolding insert_row new_row
  insert_row-IsTable p (j, h) now d t =
      elim (Bool-cases (any (has_key p.idempotency_key) d.documents)) [
        | inl old ↦ rw old (bump-IsTable d t)
        | inr new ↦ elim (Bool-cases (any (has_slug p.slug) d.documents)) [
          | inl taken ↦ rw (new, taken) (bump-IsTable d t)
          | inr free ↦
              rw (new, free) (append-IsTable d (new_row pf p j h d.next_id now) t refl free new)
        ]
      ]

  insert_pending-IsTable :
      (p : InsertPendingParams) (now : ℕ) (d : Database)
      → IsTable d
      → IsTable (insert_pending pf p now d).0
  unfolding insert_pending
  insert_pending-IsTable p now d t = elim (Option-cases (marshal_manifest pf p.manifest)) [
    | inl e ↦ rw (e, insert_pending) t
    | inr (m, e) ↦ rw (e, insert_pending) (insert_row-IsTable p m now d t)
  ]

  update_set-SameKeys :
      (p : UpdateManifestParams) (m : Str × Str) (now : ℕ) (r : Document)
      → SameKeys r (update_set pf p m now r)
  unfolding update_set
  update_set-SameKeys p (j, h) now r = ground arith

  update_manifest-IsTable :
      (p : UpdateManifestParams) (now : ℕ) (d : Database)
      → IsTable d
      → IsTable (update_manifest pf p now d).0
  unfolding update_manifest
  update_manifest-IsTable p now d t = elim (Option-cases (marshal_manifest pf p.manifest)) [
    | inl e ↦ rw (e, update_manifest) t
    | inr (m, e) ↦
        rw (e, update_manifest)
          (update_where-IsTable (update_guard p) (update_set pf p m now)
            (update_set-SameKeys p m now) d t)
  ]

  -- Every step keeps the primary key and the unique constraints.
  pub Step-IsTable : {d d' : Database} → IsTable d → Step pf d d' → IsTable d'
  unfolding mark_expired mark_abandoned
  Step-IsTable {d} t (inserts p now) = insert_pending-IsTable p now d t
  Step-IsTable {d} t (publishes link key expires now) =
      in_tx-IsTable link now (publish key expires now) d t (publish-IsTable key expires now d t)
  Step-IsTable {d} t (updates link p now) =
      in_tx-IsTable link now (update_manifest pf p now) d t (update_manifest-IsTable p now d t)
  Step-IsTable {d} t (deletes link s now) =
      in_tx-IsTable link now (soft_delete s now) d t (soft_delete-IsTable s now d t)
  Step-IsTable {d} t (expires_rows locked by limit now) =
      sweep_update-IsTable _ (expire_set now) (λ r. ground arith) d t
  Step-IsTable {d} t (abandons_rows locked older_than limit now) =
      sweep_update-IsTable _ (abandon_set now) (λ r. ground arith) d t
  Step-IsTable {d} t (stamps_row id now) = set_blobs_deleted_at-IsTable id now d t
  Step-IsTable {d} t (changes_queue q) = IsTable-eq _ d refl refl t
