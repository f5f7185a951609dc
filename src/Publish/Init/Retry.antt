-- ===== src/Publish/Init/Retry.antt =====
-- A repeated init: the idempotency key decides the row (ADR-0006).
use mdfly.Common.{
  Option-cases, find, Str, str_eq_iff, ℕ, ◌≡◌, refl, sym, ap, ◌∙◌, inl, inr, Bool, Option, none,
  some, [], arith,
}
use mdfly.Httpx.{ok, Result-cases, check_cases}
use mdfly.Documents.Table.{found, failed, Document, Database, DbResult, has_key}
use mdfly.Publish.Service.{Service}
use mdfly.Platform.{Platform}
use mdfly.Publish.Init.{init, init_write, init_reply, InitResult, ensure_payload_matches}
use mdfly.Documents.Ops.{
  InsertPendingParams, get_by_idempotency_key, marshal_manifest, manifest_hash, insert_row,
  insert_pending,
}
use mdfly.Publish.Blobs.{build_presigned_urls}
use mdfly.Common.Lookup.{any-true_of_find}
use mdfly.Manifest.Build.{Manifest, from_dto}
use mdfly.Slug.{generate_slug}
use mdfly.Api.{InitRequest}
use mdfly.Publish.Validate.{validate_init}

insert_row-used_key :
    (pf : Platform) (p : InsertPendingParams) (m : Str × Str) (now : ℕ) (d : Database)
    {row : Document}
    → find (has_key p.idempotency_key) d.documents ≡ some row
    → ((insert_row pf p m now d).1 ≡ found row)
      × ((insert_row pf p m now d).0.documents ≡ d.documents)
unfolding insert_row get_by_idempotency_key
insert_row-used_key pf p (j, h) now d {row} e =
    ground (arith, any-true_of_find (has_key p.idempotency_key) d.documents e)

insert_pending-used_key :
    (pf : Platform) (p : InsertPendingParams) (now : ℕ) (d : Database) {row : Document}
    → find (has_key p.idempotency_key) d.documents ≡ some row
    → ((r : Document) → (insert_pending pf p now d).1 ≡ found r → r ≡ row)
      × ((insert_pending pf p now d).0.documents ≡ d.documents)
unfolding insert_pending
insert_pending-used_key pf p now d {row} e = elim (Option-cases (marshal_manifest pf p.manifest)) [
  | inl n ↦ (λ r h. ground arith, ground arith)
  | inr (m, h) ↦ (
    λ r g. ground (arith, insert_row-used_key pf p m now d e),
    ground (arith, insert_row-used_key pf p m now d e),
  )
]

module _ (sv : Service) where
  ensure_payload_matches-none :
      (doc : Document) (m : Manifest)
      → ensure_payload_matches sv doc m ≡ none
      → manifest_hash sv.platform m ≡ some doc.manifest_hash
  unfolding ensure_payload_matches
  ensure_payload_matches-none doc m e = elim (Option-cases (manifest_hash sv.platform m)) [
    | inl n ↦ ground arith
    | inr (h, g) ↦ ground (arith, str_eq_iff h doc.manifest_hash)
  ]

  init_reply-ok :
      (m : Manifest) (x : DbResult Document) {res : InitResult}
      → init_reply sv m x ≡ ok res
      → (doc : Document) × (x ≡ found doc)
        × (res.slug ≡ doc.slug)
        × (manifest_hash sv.platform m ≡ some doc.manifest_hash)
        × (build_presigned_urls sv.platform doc.slug [] [] m.files_by_path ≡ ok res.presigned_urls)
  unfolding init_reply
  init_reply-ok m (failed e) h = cc
  init_reply-ok m (found doc) {res} h = elim (check_cases (ensure_payload_matches sv doc m)) [
    | inl (x, e) ↦ ground arith
    | inr e ↦
        elim (Result-cases (build_presigned_urls sv.platform doc.slug [] [] m.files_by_path)) [
          | inl (x, u) ↦ ground arith
          | inr (urls, u) ↦ (
            doc,
            refl,
            ground arith,
            ensure_payload_matches-none doc m e,
            u ∙ ap ok (ground arith),
          )
        ]
  ]

  init_steps :
      (rand : ℕ → Option ℕ) (inserts : Bool) (req : InitRequest) (now : ℕ) (d : Database)
      {res : InitResult}
      → (init sv rand inserts req now d).1 ≡ ok res
      → (validate_init req ≡ none)
        × ((m : Manifest) × (s : Str) × (from_dto req.bundle ≡ some m)
            × (init sv rand inserts req now d ≡ init_write sv req m s inserts now d))
  unfolding init
  init_steps rand inserts req now d {res} h = elim (check_cases (validate_init req)) [
    | inl (x, e) ↦ ground arith
    | inr v ↦ elim (Option-cases (from_dto req.bundle)) [
      | inl e ↦ ground arith
      | inr (m, f) ↦ elim (Option-cases (generate_slug rand)) [
        | inl e ↦ ground arith
        | inr (s, g) ↦ (v, (m, s, f, ground arith))
      ]
    ]
  ]

  abbrev params_of : InitRequest → Manifest → Str → InsertPendingParams
  params_of req m s = record {
    slug = s;
    idempotency_key = req.idempotency_key;
    manifest = m;
    edit_token = req.edit_token;
  }

  init_write-ok :
      (req : InitRequest) (m : Manifest) (s : Str) (inserts : Bool) (now : ℕ) (d : Database)
      {res : InitResult}
      → (init_write sv req m s inserts now d).1 ≡ ok res
      → (init_reply sv m (insert_pending sv.platform (params_of req m s) now d).1 ≡ ok res)
        × ((init_write sv req m s inserts now d).0
            ≡ (insert_pending sv.platform (params_of req m s) now d).0)
  unfolding init_write
  init_write-ok req m s inserts now d {res} h = ground arith

  -- An init that is repeated under a used idempotency key, and accepted, answers with the slug of the
  -- key's row and the upload addresses of its bundle for that slug, adds and changes no document, and
  -- its manifest has the hash that the row stores: another payload under the same key is refused.
  pub init_repeated :
      (rand : ℕ → Option ℕ) (inserts : Bool) (req : InitRequest) (now : ℕ) (d : Database)
      {row : Document} {res : InitResult}
      → find (has_key req.idempotency_key) d.documents ≡ some row
      → (init sv rand inserts req now d).1 ≡ ok res
      → (res.slug ≡ row.slug)
        × ((init sv rand inserts req now d).0.documents ≡ d.documents)
        × ((m : Manifest) × (from_dto req.bundle ≡ some m)
            × (manifest_hash sv.platform m ≡ some row.manifest_hash)
            × (build_presigned_urls sv.platform row.slug [] [] m.files_by_path
                ≡ ok res.presigned_urls))
  init_repeated rand inserts req now d {row} {res} used h =
      let (v, (m, s, f, steps)) = init_steps rand inserts req now d h in
      let (replied, left) = init_write-ok req m s inserts now d (rw steps at h) in
      let (doc, got, slug, hash, urls) =
        init_reply-ok m (insert_pending sv.platform (params_of req m s) now d).1 replied in
      let (same_row, kept) = insert_pending-used_key sv.platform (params_of req m s) now d used in
      let same = same_row doc got in
      (
        slug ∙ ap (λ r. r.slug) same,
        ap (λ x. x.0.documents) steps ∙ ap (λ x. x.documents) left ∙ kept,
        (
          m,
          f,
          hash ∙ ap (λ r. some r.manifest_hash) same,
          ap (λ r. build_presigned_urls sv.platform r.slug [] [] m.files_by_path) (sym same) ∙ urls,
        ),
      )
