-- ===== src/Publish/Commit/Published.antt =====
-- What an accepted commit leaves, told by the reads of the table.
use mdfly.Common.{
  Option-cases, find, All, Str, str_eq, str_eq_iff, ℕ, ◌+◌, ◌≡◌, refl, sym, ap, ◌∙◌, ◌⊎◌, inl, inr,
  true, false, none, some, arith,
}
use mdfly.Common.Hex.{encode}
use mdfly.Common.Lookup.{find-holds}
use mdfly.Httpx.{ok}
use mdfly.Api.{CommitRequest}
use mdfly.Manifest.Build.{Manifest}
use mdfly.Publish.Service.{Service, CommitResult, anon_expires_in}
use mdfly.Publish.Commit.{CommitLink, commit, reply}
use mdfly.Publish.Commit.Laws.{commit-Written, publish_reread-found}
use mdfly.Publish.Blobs.Uploaded.{FileStored, verify_blobs-FileStored}
use mdfly.Documents.Table.{
  Document, Database, found, has_key, published, pending, scan, update_where,
}
use mdfly.Documents.Ops.{
  get_by_idempotency_key, publish, publish_guard, publish_set, manifest_hash_hex,
}
use mdfly.Documents.Effects.{find_unique, find-update_where, update_where-apart}
use mdfly.Documents.Queue.Laws.{IsQueued}
use mdfly.Documents.Invariant.{IsTable, same_key}

-- The row of the key was pending, and is published now with its 30 days; its slug stays.
abbrev pub IsMade : Str → ℕ → Database → Document → Type 0
IsMade key now before doc =
    (old : Document) × ((get_by_idempotency_key key before ≡ found old)
      × ((old.status ≡ pending)
          × ((doc.slug ≡ old.slug) × (doc.expires_at ≡ some (now + anon_expires_in)))))

-- The key has a published row, whose purge is queued: one that was pending, or one that another
-- transaction had published, and then no row has changed. Every other key reads as before.
abbrev pub IsPublished : Str → ℕ → Database → Database → Document → Type 0
IsPublished key now before after doc =
    (get_by_idempotency_key key after ≡ found doc)
    × (IsQueued doc.slug now after.purge_queue
        × ((IsMade key now before doc ⊎ (after.documents ≡ before.documents))
            × ((k : Str)
                → str_eq key k ≡ false
                → get_by_idempotency_key k after ≡ get_by_idempotency_key k before)))

keys-apart :
    (s t : Str)
    → str_eq s t ≡ false
    → (r : Document) → has_key t r ≡ true
    → publish_guard s r ≡ false
keys-apart s t other r h =
    ground (arith, str_eq_iff r.idempotency_key s, str_eq_iff r.idempotency_key t, str_eq_iff s t)

module _ (key : Str) (now : ℕ) (before after : Database) (doc : Document) where
  IsPublished-made :
      (old : Document)
      → IsTable before
      → find (publish_guard key) before.documents ≡ some old
      → (publish key (now + anon_expires_in) now before).1 ≡ found doc
      → after.documents ≡ (publish key (now + anon_expires_in) now before).0.documents
      → IsQueued doc.slug now after.purge_queue
      → IsPublished key now before after doc
  unfolding publish get_by_idempotency_key
  IsPublished-made old t e f g q =
      let set = publish_set (now + anon_expires_in) now in
      let guarded = find-holds (publish_guard key) before.documents e in
      let is_doc : set old ≡ doc = let h = rw (publish, e) at f in cc in
      let rows : after.documents ≡ update_where (publish_guard key) set before.documents =
        g ∙ rw (publish, e) refl in
      let here =
        find_unique same_key (has_key key) (publish_guard key) (λ r h. ground arith)
          (λ a b x y. ground (
            arith,
            str_eq_iff a.idempotency_key key,
            str_eq_iff b.idempotency_key key,
            str_eq_iff a.idempotency_key b.idempotency_key,
          ))
          before.documents old t.unique_keys e in
      let reads =
        ap (find (has_key key)) rows
        ∙ find-update_where (has_key key) (publish_guard key) set (λ r. refl) before.documents in
      (
        rw (get_by_idempotency_key, reads, here, guarded) (ap found is_doc),
        (
          q,
          (
            inl (
              old,
              (
                rw (get_by_idempotency_key, here) refl,
                (
                  ground arith,
                  (ap (λ r. r.slug) (sym is_doc), ap (λ r. r.expires_at) (sym is_doc)),
                ),
              ),
            ),
            λ k other.
                ap (λ xs. scan (find (has_key k) xs)) rows
                ∙ ap scan (
                    update_where-apart (has_key k) (publish_guard key) set (λ r. refl)
                      (keys-apart key k other) before.documents),
          ),
        ),
      )

  IsPublished-reread :
      find (publish_guard key) before.documents ≡ none
      → (publish key (now + anon_expires_in) now before).1 ≡ found doc
      → after.documents ≡ (publish key (now + anon_expires_in) now before).0.documents
      → IsQueued doc.slug now after.purge_queue
      → IsPublished key now before after doc
  unfolding publish get_by_idempotency_key
  IsPublished-reread n f g q =
      let rows = g ∙ rw (publish, n) refl in
      let (read, live) =
        publish_reread-found (get_by_idempotency_key key before) (rw (publish, n) at f) in
      (
        ap (λ xs. scan (find (has_key key) xs)) rows ∙ read,
        (q, (inr rows, λ k other. ap (λ xs. scan (find (has_key k) xs)) rows)),
      )

  publish-IsPublished :
      IsTable before
      → (publish key (now + anon_expires_in) now before).1 ≡ found doc
      → after.documents ≡ (publish key (now + anon_expires_in) now before).0.documents
      → IsQueued doc.slug now after.purge_queue
      → IsPublished key now before after doc
  publish-IsPublished t f g q = elim (Option-cases (find (publish_guard key) before.documents)) [
    | inl n ↦ IsPublished-reread n f g q
    | inr (old, e) ↦ IsPublished-made old t e f g q
  ]

module _ (sv : Service) where
  -- An accepted commit answers the slug and the hash of a published row. Either it is the row that was
  -- read for the idempotency key, and nothing has changed; or every blob of the manifest of the row
  -- that was read was in the store, and the key's row is published behind the transaction: it was
  -- pending and has its days to live, or another transaction had published it and no row has changed.
  -- The purge of its slug is queued then, and every other key reads as before; if the database that
  -- the transaction found met the constraints of the table.
  pub commit-Committed :
      (link : CommitLink) (meanwhile : Database → Database) (req : CommitRequest) (now : ℕ)
      (d : Database) {res : CommitResult}
      → IsTable (meanwhile d)
      → (commit sv link meanwhile req now d).result ≡ ok res
      → (row : Document) × ((doc : Document) × ((get_by_idempotency_key req.idempotency_key d
              ≡ found row)
            × (((doc.status ≡ published)
                  × ((res.slug ≡ doc.slug) × (res.manifest_hash ≡ encode doc.manifest_hash)))
                × (((row ≡ doc) × ((commit sv link meanwhile req now d).db ≡ d))
                    ⊎ (((m : Manifest) × ((sv.platform.unmarshal row.manifest_json ≡ some m)
                            × All (FileStored sv.platform row.slug) m.files_by_path))
                        × IsPublished req.idempotency_key now
                            (meanwhile d)
                            (commit sv link meanwhile req now d).db
                            doc)))))
  unfolding reply manifest_hash_hex
  commit-Committed link meanwhile req now d {res} t h =
      let (row, doc, read, (live, same), done) = commit-Written sv link meanwhile req now d h in
      let after = (commit sv link meanwhile req now d).db in
      (
        row,
        (
          doc,
          (
            read,
            (
              (live, (ap (λ r. r.slug) (sym same), ap (λ r. r.manifest_hash) (sym same))),
              elim done [
                | inl (was, is, left) ↦ inl (is, left)
                | inr (was, (m, stored, checked, (f, g, q))) ↦ inr (
                  (
                    m,
                    (
                      stored,
                      (verify_blobs-FileStored sv.platform row.slug m.files_by_path).0 checked,
                    ),
                  ),
                  publish-IsPublished req.idempotency_key now (meanwhile d) after doc t f g q,
                )
              ],
            ),
          ),
        ),
      )
