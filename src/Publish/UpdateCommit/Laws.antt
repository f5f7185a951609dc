-- ===== src/Publish/UpdateCommit/Laws.antt =====
-- What an accepted update has done: no update is lost.
use mdfly.Publish.Commit.Laws.{call-found}
use mdfly.Common.{
  find, Str, str_eq_iff, ℕ, ◌+◌, ◌≡◌, refl, sym, ap, ◌∙◌, ◌⊎◌, inl, inr, Bool, Option, some, arith,
}
use mdfly.Httpx.{ok, err, HttpError, Result-cases}
use mdfly.Publish.Service.{Service, anon_expires_in}
use mdfly.Documents.Ops.Laws.{update_manifest-found}
use mdfly.Documents.Tx.Atomic.{in_tx-Written}
use mdfly.Documents.Queue.Laws.{IsQueued}
use mdfly.Documents.Table.{
  not_found, gone, unavailable, found, failed, DbResult, Database, Document, update_where,
  unavailable,
}
use mdfly.Documents.Ops.{
  UpdateManifestParams, update_guard, marshal_manifest, update_set, update_manifest,
  manifest_hash_hex, get_by_slug, manifest_hash,
}
use mdfly.Documents.Tx.{TxLink}
use mdfly.Publish.UpdateCommit.{
  commit_update, same_or_conflict, reconcile_concurrent_update, UpdateLink, Meanwhile, parent_of,
  applied_update, apply_update,
}
use mdfly.Publish.Update.{manifest_hash_of}
use mdfly.Publish.Commit.{call}
use mdfly.Manifest.Build.{Manifest}
use mdfly.Common.Hex.{encode}

module _ (sv : Service) where
  -- The transaction changed the row that the guard picked, and queued the purge of its slug.
  pub record Overwrites (p : UpdateManifestParams) (now : ℕ) (before after : Database)
      (row : Document) : Type 0 where
    pub content : Str × Str
    pub old : Document
    pub marshalled : marshal_manifest sv.platform p.manifest ≡ some content
    pub guarded : find (update_guard p) before.documents ≡ some old
    pub row_set : row ≡ update_set sv.platform p content now old
    pub rows_set :
        after.documents
        ≡ update_where (update_guard p) (update_set sv.platform p content now) before.documents
    pub queued : IsQueued row.slug now after.purge_queue

  commit_update-Overwrites :
      (link : TxLink) (p : UpdateManifestParams) (now : ℕ) (d : Database) {row : Document}
      → (commit_update sv link p now d).1 ≡ found row
      → Overwrites p now d (commit_update sv link p now d).0 row
  unfolding commit_update
  commit_update-Overwrites link p now d {row} e =
      let (answered, documents, queue) =
        in_tx-Written link now (update_manifest sv.platform p now) d row e in
      let (m, marshalled, r, guarded, set, all) =
        update_manifest-found sv.platform p now d answered in
      record {
        content = m;
        old = r;
        marshalled = marshalled;
        guarded = guarded;
        row_set = set;
        rows_set = documents ∙ all;
        queued = queue;
      }

  -- The live row of the slug has the hash already.
  abbrev pub IsLive : Str → Str → Database → Type 0
  IsLive s next d =
      (doc : Document) × (get_by_slug s d ≡ found doc) × (manifest_hash_hex doc ≡ next)

  same_or_conflict-ok :
      (next : Str) (x : DbResult Document) {doc : Document}
      → same_or_conflict sv next x ≡ ok doc
      → (x ≡ found doc) × (manifest_hash_hex doc ≡ next)
  unfolding same_or_conflict
  same_or_conflict-ok next (failed e) h = cc
  same_or_conflict-ok next (found r) h = ground (arith, str_eq_iff (manifest_hash_hex r) next)

  reconcile-IsLive :
      (rereads : Bool) (s : Str) (m : Manifest) (d : Database) {doc : Document}
      → reconcile_concurrent_update sv rereads s m d ≡ ok doc
      → (next : Str) × (manifest_hash_of sv m ≡ ok next)
        × (get_by_slug s d ≡ found doc)
        × (manifest_hash_hex doc ≡ next)
  unfolding reconcile_concurrent_update
  reconcile-IsLive rereads s m d {doc} e = elim (Result-cases (manifest_hash_of sv m)) [
    | inl (x, h) ↦ cc h
    | inr (next, h) ↦
        let (f, same) = same_or_conflict-ok next (call rereads (get_by_slug s d)) (ground arith) in
        (next, h, call-found rereads (get_by_slug s d) f, same)
  ]

  applied_update-ok :
      (link : UpdateLink) (later : Database → Database) (s : Str) (m : Manifest) (d : Database)
      (x : DbResult Document) {doc : Document}
      → (applied_update sv link later s m d x).1 ≡ ok doc
      → ((x ≡ found doc) × ((applied_update sv link later s m d x).0 ≡ d))
        ⊎ ((reconcile_concurrent_update sv link.rereads s m (later d) ≡ ok doc)
            × ((applied_update sv link later s m d x).0 ≡ later d))
  unfolding applied_update
  applied_update-ok link later s m d (found r) e = inl (ground arith, refl)
  applied_update-ok link later s m d (failed not_found) e = inr (e, refl)
  applied_update-ok link later s m d (failed gone) e = cc
  applied_update-ok link later s m d (failed unavailable) e = cc

  abbrev pub params_of : Str → Manifest → Option Str → ℕ → UpdateManifestParams
  params_of s m parent now = record {
    slug = s;
    manifest = m;
    parent_manifest_hash = parent;
    expires_at = now + anon_expires_in;
  }

  pub manifest_hash_of-content :
      (m : Manifest) (c : Str × Str)
      → marshal_manifest sv.platform m ≡ some c
      → manifest_hash_of sv m ≡ ok (encode c.1)
  unfolding manifest_hash_of manifest_hash
  manifest_hash_of-content m (j, h) e = ground arith

  -- The ways in which a manifest came to be live under a slug: its hash was found there, or the guarded
  -- write put it there.
  abbrev pub Landed : Str → Str → Manifest → Str → ℕ → Database → Database → Type 0
  Landed s parent_hex m next now before after =
      IsLive s next after
      ⊎ ((parent : Option Str) × (row : Document) × (parent_of parent_hex ≡ ok parent)
          × Overwrites (params_of s m parent now) now before after row)

  pub hash-update_set :
      (p : UpdateManifestParams) (c : Str × Str) (now : ℕ) (r doc : Document)
      → doc ≡ update_set sv.platform p c now r
      → manifest_hash_hex doc ≡ encode c.1
  unfolding manifest_hash_hex update_set
  hash-update_set p (j, h) now r doc e = ground arith

  overwritten :
      (s : Str) (m : Manifest) (parent_hex : Str) (parent : Option Str) (now : ℕ)
      (before after : Database) (doc : Document)
      → parent_of parent_hex ≡ ok parent
      → Overwrites (params_of s m parent now) now before after doc
      → (manifest_hash_of sv m ≡ ok (manifest_hash_hex doc))
        × Landed s parent_hex m (manifest_hash_hex doc) now before after
  overwritten s m parent_hex parent now before after doc h o = (
    manifest_hash_of-content m o.content o.marshalled
        ∙ ap ok
            (sym (hash-update_set (params_of s m parent now) o.content now o.old doc o.row_set)),
    inr (parent, doc, h, o),
  )

  reconciled :
      (rereads : Bool) (s : Str) (m : Manifest) (parent_hex : Str) (now : ℕ)
      (before after : Database) (doc : Document)
      → reconcile_concurrent_update sv rereads s m after ≡ ok doc
      → (manifest_hash_of sv m ≡ ok (manifest_hash_hex doc))
        × Landed s parent_hex m (manifest_hash_hex doc) now before after
  reconciled rereads s m parent_hex now before after doc e =
      let (next, hash, live, same) = reconcile-IsLive rereads s m after e in
      (hash ∙ ap ok (sym same), inl (doc, live, refl))

  apply_update_steps :
      (link : UpdateLink) (mw : Meanwhile) (s : Str) (m : Manifest) (parent_hex : Str) (now : ℕ)
      (d : Database) (parent : Option Str)
      → parent_of parent_hex ≡ ok parent
      → apply_update sv link mw s m parent_hex now d
        ≡ applied_update sv link mw.before_reread s m
            (commit_update sv link.tx (params_of s m parent now) now (mw.before_write d)).0
            (commit_update sv link.tx (params_of s m parent now) now (mw.before_write d)).1
  unfolding apply_update
  apply_update_steps link mw s m parent_hex now d parent h = rw (h, apply_update)

  apply_update_bad_parent :
      (link : UpdateLink) (mw : Meanwhile) (s : Str) (m : Manifest) (parent_hex : Str) (now : ℕ)
      (d : Database) (x : HttpError)
      → parent_of parent_hex ≡ err x
      → apply_update sv link mw s m parent_hex now d ≡ (d, err x)
  unfolding apply_update
  apply_update_bad_parent link mw s m parent_hex now d x h = rw (h, apply_update)

  pub apply_update-Landed :
      (link : UpdateLink) (mw : Meanwhile) (s : Str) (m : Manifest) (parent_hex : Str) (now : ℕ)
      (d : Database) {doc : Document}
      → (apply_update sv link mw s m parent_hex now d).1 ≡ ok doc
      → (manifest_hash_of sv m ≡ ok (manifest_hash_hex doc))
        × Landed s parent_hex m
            (manifest_hash_hex doc)
            now
            (mw.before_write d)
            (apply_update sv link mw s m parent_hex now d).0
  apply_update-Landed link mw s m parent_hex now d {doc} e =
      elim (Result-cases (parent_of parent_hex)) [
        | inl (x, h) ↦ cc (apply_update_bad_parent link mw s m parent_hex now d x h)
        | inr (parent, h) ↦
            let p = params_of s m parent now in
            let w = commit_update sv link.tx p now (mw.before_write d) in
            let steps = apply_update_steps link mw s m parent_hex now d parent h in
            elim (applied_update-ok link mw.before_reread s m w.0 w.1 (rw steps at e)) [
              | inl (f, same) ↦
                  rw (steps, same)
                    (overwritten s m parent_hex parent now (mw.before_write d) w.0 doc h
                      (commit_update-Overwrites link.tx p now (mw.before_write d) f))
              | inr (r, same) ↦
                  rw (steps, same)
                    (reconciled link.rereads s m parent_hex now (mw.before_write d)
                      (mw.before_reread w.0) doc r)
            ]
      ]
