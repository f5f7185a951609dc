-- ===== src/DeleteDocument/Laws.antt =====
-- What an accepted delete stands for.
use mdfly.Publish.Commit.Laws.{call-found}
use mdfly.Common.{
  Option-cases, find, Str, str_eq, str_eq_iff, ℕ, ◌≡◌, refl, sym, ap, ◌∙◌, subst, ◌⊎◌, inl, inr,
  Bool, true, false, none, some, arith,
}
use mdfly.Httpx.{check_cases}
use mdfly.Documents.Table.{
  pending, published, deleted, expired, abandoned, not_found, gone, unavailable, found, failed,
  DbResult-cases, Status, Document, Database, DbResult,
}
use mdfly.Publish.Service.{Service}
use mdfly.DeleteDocument.{
  delete_row, delete_reply, deletion, soft_delete_tx, verify_edit_token, delete,
}
use mdfly.Documents.Tx.Atomic.{in_tx-Written, Written}
use mdfly.Documents.Ops.{get_by_slug, get_by_slug_any, soft_delete, soft_delete_set}
use mdfly.Documents.Ops.Laws.{Opens, matches_edit_token-Opens}
use mdfly.Documents.Effects.{find-update_where, update_where-apart, slugs-apart}
use mdfly.Documents.Queue.Laws.{IsQueued}
use mdfly.Documents.Table.{has_slug, scan}
use mdfly.Common.Lookup.{find-holds}
use mdfly.Documents.Tx.{TxLink}
use mdfly.Documents.Steps.Reachable.{is_gone}
use mdfly.Publish.Commit.{call}

module _ (sv : Service) where
  delete_reply-none :
      (s : Str) (x : Database × DbResult Document)
      → (delete_reply sv s x).error ≡ none
      → (doc : Document) × (x.1 ≡ found doc) × ((delete_reply sv s x).db ≡ x.0)
  unfolding delete_reply deletion
  delete_reply-none s (d, found doc) h = (doc, refl, refl)
  delete_reply-none s (d, failed not_found) h = cc
  delete_reply-none s (d, failed gone) h = cc
  delete_reply-none s (d, failed unavailable) h = cc

  -- The row was gone already, or the transaction deleted it and queued the purge of its slug.
  abbrev pub Deleted : TxLink → Str → ℕ → Database → Database → Database → Document → Type 0
  Deleted link s now d before after row =
      ((is_gone row.status ≡ true) × (after ≡ d))
      ⊎ ((row.status ≡ published)
          × ((doc : Document) × Written link now (soft_delete s now) before doc after))

  delete_published :
      (link : TxLink) (meanwhile : Database → Database) (s token : Str) (now : ℕ) (d : Database)
      (row : Document)
      → (delete_row sv published link meanwhile s token now d row).error ≡ none
      → (verify_edit_token sv row token ≡ none)
        × (delete_row sv published link meanwhile s token now d row
            ≡ delete_reply sv s (soft_delete_tx link s now (meanwhile d)))
  unfolding delete_row deletion
  delete_published link meanwhile s token now d row h =
      elim (check_cases (verify_edit_token sv row token)) [
        | inl (x, e) ↦ ground arith
        | inr e ↦ (e, ground arith)
      ]

  delete_published-none :
      (link : TxLink) (meanwhile : Database → Database) (s token : Str) (now : ℕ) (d : Database)
      (row : Document)
      → (delete_row sv published link meanwhile s token now d row).error ≡ none
      → (verify_edit_token sv row token ≡ none)
        × ((doc : Document) × Written link now
              (soft_delete s now)
              (meanwhile d)
              doc
              (delete_row sv published link meanwhile s token now d row).db)
  unfolding soft_delete_tx
  delete_published-none link meanwhile s token now d row h =
      let (v, steps) = delete_published link meanwhile s token now d row h in
      let w = soft_delete_tx link s now (meanwhile d) in
      let (doc, f, left) = delete_reply-none s w (rw steps at h) in
      rw (steps, left) (v, (doc, in_tx-Written link now (soft_delete s now) (meanwhile d) doc f))

  delete_row-none :
      (status : Status) (link : TxLink) (meanwhile : Database → Database) (s token : Str) (now : ℕ)
      (d : Database) (row : Document)
      → row.status ≡ status
      → (delete_row sv status link meanwhile s token now d row).error ≡ none
      → (verify_edit_token sv row token ≡ none)
        × Deleted link s now d
            (meanwhile d)
            (delete_row sv status link meanwhile s token now d row).db
            row
  unfolding delete_row deletion
  delete_row-none pending link meanwhile s token now d row e h = cc
  delete_row-none abandoned link meanwhile s token now d row e h = cc
  delete_row-none deleted link meanwhile s token now d row e h = (h, inl (rw e, refl))
  delete_row-none expired link meanwhile s token now d row e h = (h, inl (rw e, refl))
  delete_row-none published link meanwhile s token now d row e h =
      let (v, w) = delete_published-none link meanwhile s token now d row h in (v, inr (e, w))

  delete_found :
      (loads : Bool) (link : TxLink) (meanwhile : Database → Database) (s token : Str) (now : ℕ)
      (d : Database) (row : Document)
      → call loads (get_by_slug_any s d) ≡ found row
      → delete sv loads link meanwhile s token now d
        ≡ delete_row sv row.status link meanwhile s token now d row
  unfolding delete
  delete_found loads link meanwhile s token now d row h = ground arith

  delete_failed :
      (loads : Bool) (link : TxLink) (meanwhile : Database → Database) (s token : Str) (now : ℕ)
      (d : Database)
      → (delete sv loads link meanwhile s token now d).error ≡ none
      → (row : Document) × (call loads (get_by_slug_any s d) ≡ found row)
  unfolding delete deletion
  delete_failed loads link meanwhile s token now d h =
      elim (DbResult-cases (call loads (get_by_slug_any s d))) [
        | inl (f, e) ↦ ground arith
        | inr (row, e) ↦ (row, e)
      ]

  delete-Written :
      (loads : Bool) (link : TxLink) (meanwhile : Database → Database) (s token : Str) (now : ℕ)
      (d : Database)
      → (delete sv loads link meanwhile s token now d).error ≡ none
      → (row : Document) × (get_by_slug_any s d ≡ found row)
        × (verify_edit_token sv row token ≡ none)
        × Deleted link s now d (meanwhile d) (delete sv loads link meanwhile s token now d).db row
  delete-Written loads link meanwhile s token now d h =
      let (row, e) = delete_failed loads link meanwhile s token now d h in
      let steps = delete_found loads link meanwhile s token now d row e in
      let (v, done) =
        delete_row-none row.status link meanwhile s token now d row refl (rw steps at h) in
      rw steps (row, call-found loads (get_by_slug_any s d) e, v, done)

  verify_edit_token-Opens :
      (row : Document) (token : Str)
      → verify_edit_token sv row token ≡ none
      → Opens sv.platform row token
  unfolding verify_edit_token
  verify_edit_token-Opens row token h =
      matches_edit_token-Opens sv.platform row token (ground arith)

  -- The slug answers as gone from now on, every other one reads as before, and the purge is queued.
  abbrev pub IsRemoved : Str → ℕ → Database → Database → Type 0
  IsRemoved s now before after =
      (get_by_slug s after ≡ failed gone)
      × (((t : Str) → str_eq s t ≡ false → get_by_slug_any t after ≡ get_by_slug_any t before)
          × IsQueued s now after.purge_queue)

  removed :
      (s : Str) (now : ℕ) (before after : Database) (old doc : Document)
      → find (has_slug s) before.documents ≡ some old
      → (soft_delete s now before).1 ≡ found doc
      → after.documents ≡ (soft_delete s now before).0.documents
      → IsQueued doc.slug now after.purge_queue
      → IsRemoved s now before after
  unfolding soft_delete get_by_slug get_by_slug_any
  removed s now before after old doc e f g q =
      let set = soft_delete_set now in
      let named = find-holds (has_slug s) before.documents e in
      let is_doc : set old ≡ doc = ground (arith, f, e) in
      let slug : doc.slug ≡ s = ap (λ r. r.slug) (sym is_doc) ∙ (str_eq_iff old.slug s).0 named in
      let reads = λ (t : Str).
        ap (find (has_slug t)) g
        ∙ find-update_where (has_slug t) (has_slug s) set (λ r. refl) before.documents in
      (
        rw (get_by_slug, reads s, e, named) refl,
        (
          λ t other.
              ap (λ xs. scan (find (has_slug t) xs)) g
              ∙ ap scan (
                  update_where-apart (has_slug t) (has_slug s) set (λ r. refl)
                    (slugs-apart s t other) before.documents),
          subst (λ x. IsQueued x now after.purge_queue) slug q,
        ),
      )

  IsRemoved-row :
      (s : Str) (now : ℕ) (before after : Database) (doc : Document)
      → (soft_delete s now before).1 ≡ found doc
      → after.documents ≡ (soft_delete s now before).0.documents
      → IsQueued doc.slug now after.purge_queue
      → IsRemoved s now before after
  unfolding soft_delete
  IsRemoved-row s now before after doc f g q =
      elim (Option-cases (find (has_slug s) before.documents)) [
        | inl n ↦ let no = rw (soft_delete, n) at f in cc
        | inr (old, e) ↦ removed s now before after old doc e f g q
      ]

  -- A delete that answers without an error had a row of the slug, whose Edit Token was the one given;
  -- and either that row was deleted or expired already and nothing has changed, or it was published,
  -- and behind the transaction the slug answers as gone, every other slug reads as before, and the
  -- purge of the slug is queued.
  pub delete-Deleted :
      (loads : Bool) (link : TxLink) (meanwhile : Database → Database) (s token : Str) (now : ℕ)
      (d : Database)
      → (delete sv loads link meanwhile s token now d).error ≡ none
      → (row : Document) × ((get_by_slug_any s d ≡ found row)
          × (Opens sv.platform row token
              × (((is_gone row.status ≡ true)
                    × ((delete sv loads link meanwhile s token now d).db ≡ d))
                  ⊎ ((row.status ≡ published)
                      × IsRemoved s now
                          (meanwhile d)
                          (delete sv loads link meanwhile s token now d).db))))
  delete-Deleted loads link meanwhile s token now d h =
      let (row, e, v, done) = delete-Written loads link meanwhile s token now d h in
      (
        row,
        (
          e,
          (
            verify_edit_token-Opens row token v,
            elim done [
              | inl same ↦ inl same
              | inr (live, (doc, (f, g, q))) ↦ inr (
                live,
                IsRemoved-row s now (meanwhile d) (delete sv loads link meanwhile s token now d).db
                    doc f g q,
              )
            ],
          ),
        ),
      )
