-- ===== src/Publish/Commit/Laws.antt =====
-- What an accepted commit stands for.
use mdfly.Common.{
  Bool-cases, Option-cases, find, Str, ℕ, ◌+◌, ◌≡◌, refl, ◌⊎◌, inl, inr, Bool, true, false, none,
  some, arith,
}
use mdfly.Httpx.{ok, check_cases}
use mdfly.Documents.Table.{
  not_found, gone, unavailable, found, failed, published, Document, Database, DbResult,
  is_published,
}
use mdfly.Publish.Service.{Service, CommitResult, anon_expires_in}
use mdfly.Publish.Commit.{
  call, refuse, commit_done, commit_pending, commit_loaded, CommitLink, reply, commit_publish,
  commit,
}
use mdfly.Documents.Tx.Atomic.{in_tx-Written, Written}
use mdfly.Documents.Ops.{get_by_idempotency_key, publish_guard, publish_reread, publish}
use mdfly.Documents.Tx.{TxLink}
use mdfly.Publish.Blobs.{verify_blobs}
use mdfly.Manifest.Build.{Manifest}
use mdfly.Api.{CommitRequest}
use mdfly.Publish.Validate.{validate_commit}

-- The row of a commit: published, and the one whose slug and hash were answered.
abbrev pub IsAnswer : Service → CommitResult → Document → Type 0
IsAnswer sv res doc = (doc.status ≡ published) × (reply sv doc ≡ res)

pub publish_reread-found :
    (x : DbResult Document) {r : Document}
    → publish_reread x ≡ found r
    → (x ≡ found r) × (r.status ≡ published)
unfolding publish_reread
publish_reread-found (failed e) h = cc
publish_reread-found (found x) {r} h = ground arith

publish-found :
    (key : Str) (expires now : ℕ) (d : Database) {r : Document}
    → (publish key expires now d).1 ≡ found r
    → r.status ≡ published
unfolding publish
publish-found key expires now d {r} h = elim (Option-cases (find (publish_guard key) d.documents)) [
  | inl n ↦ ground (arith, publish_reread-found (get_by_idempotency_key key d) {r = r})
  | inr (x, e) ↦ ground arith
]

-- A read that answers with a row got through.
pub call-found :
    (b : Bool) (x : DbResult Document) {doc : Document} → call b x ≡ found doc → x ≡ found doc
unfolding call
call-found b x h = ground arith

module _ (sv : Service) where
  commit_done-ok :
      (d : Database) (x : DbResult Document) {res : CommitResult}
      → (commit_done sv d x).result ≡ ok res
      → (doc : Document) × (x ≡ found doc) × (reply sv doc ≡ res) × ((commit_done sv d x).db ≡ d)
  unfolding commit_done refuse
  commit_done-ok d (failed not_found) h = cc
  commit_done-ok d (failed gone) h = cc
  commit_done-ok d (failed unavailable) h = cc
  commit_done-ok d (found doc) {res} h = (doc, refl, ground arith, refl)

  -- The blobs of the pending row's manifest were there, and the transaction published the row and
  -- queued the purge of its slug.
  abbrev pub Publishes : TxLink → Str → ℕ → Database → Document → Document → Database → Type 0
  Publishes link key now before row doc after =
      (m : Manifest) × (sv.platform.unmarshal row.manifest_json ≡ some m)
      × (verify_blobs sv.platform row.slug m.files_by_path ≡ none)
      × Written link now (publish key (now + anon_expires_in) now) before doc after

  commit_pending_steps :
      (link : TxLink) (meanwhile : Database → Database) (key : Str) (now : ℕ) (d : Database)
      (row : Document) {res : CommitResult}
      → (commit_pending sv link meanwhile key now d row).result ≡ ok res
      → (m : Manifest) × (sv.platform.unmarshal row.manifest_json ≡ some m)
        × (verify_blobs sv.platform row.slug m.files_by_path ≡ none)
        × (commit_pending sv link meanwhile key now d row
            ≡ commit_done sv
                (commit_publish link key (now + anon_expires_in) now (meanwhile d)).0
                (commit_publish link key (now + anon_expires_in) now (meanwhile d)).1)
  unfolding commit_pending refuse
  commit_pending_steps link meanwhile key now d row {res} e =
      elim (Option-cases (sv.platform.unmarshal row.manifest_json)) [
        | inl n ↦ ground arith
        | inr (m, h) ↦ elim (check_cases (verify_blobs sv.platform row.slug m.files_by_path)) [
          | inl (x, g) ↦ ground arith
          | inr g ↦ (m, h, g, ground arith)
        ]
      ]

  commit_pending-ok :
      (link : TxLink) (meanwhile : Database → Database) (key : Str) (now : ℕ) (d : Database)
      (row : Document) {res : CommitResult}
      → (commit_pending sv link meanwhile key now d row).result ≡ ok res
      → (doc : Document) × IsAnswer sv res doc
        × Publishes link key now
            (meanwhile d)
            row
            doc
            (commit_pending sv link meanwhile key now d row).db
  unfolding commit_publish
  commit_pending-ok link meanwhile key now d row {res} e =
      let (m, h, g, steps) = commit_pending_steps link meanwhile key now d row e in
      let w = commit_publish link key (now + anon_expires_in) now (meanwhile d) in
      let (doc, f, same, left) = commit_done-ok w.0 w.1 (rw steps at e) in
      let written =
        in_tx-Written link now (publish key (now + anon_expires_in) now) (meanwhile d) doc f in
      rw (steps, left)
        (
          doc,
          (publish-found key (now + anon_expires_in) now (meanwhile d) written.0, same),
          (m, h, g, written),
        )

  already_reply :
      (link : TxLink) (meanwhile : Database → Database) (key : Str) (now : ℕ) (d : Database)
      (row : Document) {res : CommitResult}
      → is_published row.status ≡ true
      → (commit_loaded sv link meanwhile key now d (found row)).result ≡ ok res
      → reply sv row ≡ res
  unfolding commit_loaded
  already_reply link meanwhile key now d row {res} t h = ground arith

  -- The ways to a commit that is accepted: a row already published, or one that was pending.
  abbrev pub Committed :
      TxLink → Str → ℕ → Database → Database → Database → Document → Document → Type 0
  Committed link key now d before after row doc =
      ((row.status ≡ published) × (row ≡ doc) × (after ≡ d))
      ⊎ ((is_published row.status ≡ false) × Publishes link key now before row doc after)

  commit_loaded-ok :
      (link : TxLink) (meanwhile : Database → Database) (key : Str) (now : ℕ) (d : Database)
      (x : DbResult Document) {res : CommitResult}
      → (commit_loaded sv link meanwhile key now d x).result ≡ ok res
      → (row : Document) × (doc : Document) × (x ≡ found row)
        × IsAnswer sv res doc
        × Committed link key now d
            (meanwhile d)
            (commit_loaded sv link meanwhile key now d x).db
            row
            doc
  unfolding commit_loaded refuse
  commit_loaded-ok link meanwhile key now d (failed not_found) h = cc
  commit_loaded-ok link meanwhile key now d (failed gone) h = cc
  commit_loaded-ok link meanwhile key now d (failed unavailable) h = cc
  commit_loaded-ok link meanwhile key now d (found row) {res} h =
      elim (Bool-cases (is_published row.status)) [
        | inl t ↦ rw t (
          row,
          row,
          refl,
          (ground arith, already_reply link meanwhile key now d row t h),
          inl (ground arith, refl, refl),
        )
        | inr f ↦
            let (doc, answer, done) = commit_pending-ok link meanwhile key now d row (rw f at h) in
            rw f (row, doc, refl, answer, inr (f, done))
      ]

  commit_steps :
      (link : CommitLink) (meanwhile : Database → Database) (req : CommitRequest) (now : ℕ)
      (d : Database) {res : CommitResult}
      → (commit sv link meanwhile req now d).result ≡ ok res
      → commit sv link meanwhile req now d
        ≡ commit_loaded sv link.tx meanwhile req.idempotency_key now d
            (call link.loads (get_by_idempotency_key req.idempotency_key d))
  unfolding commit refuse
  commit_steps link meanwhile req now d h = elim (check_cases (validate_commit req)) [
    | inl (x, e) ↦ ground arith
    | inr e ↦ ground arith
  ]

  pub commit-Written :
      (link : CommitLink) (meanwhile : Database → Database) (req : CommitRequest) (now : ℕ)
      (d : Database) {res : CommitResult}
      → (commit sv link meanwhile req now d).result ≡ ok res
      → (row : Document) × (doc : Document) × (get_by_idempotency_key req.idempotency_key d
          ≡ found row)
        × IsAnswer sv res doc
        × Committed link.tx req.idempotency_key now d
            (meanwhile d)
            (commit sv link meanwhile req now d).db
            row
            doc
  commit-Written link meanwhile req now d {res} h =
      let steps = commit_steps link meanwhile req now d h in
      let key = req.idempotency_key in
      let read = call link.loads (get_by_idempotency_key key d) in
      let (row, doc, f, answer, done) =
        commit_loaded-ok link.tx meanwhile key now d read (rw steps at h) in
      rw steps (row, doc, call-found link.loads (get_by_idempotency_key key d) f, answer, done)
