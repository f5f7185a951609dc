-- ===== src/Documents/Ops/Laws.antt =====
-- What the answers of the statements say of the table.
use mdfly.Common.{
  Option-cases, find, Str, str_eq_iff, is_empty, ℕ, ◌≡◌, inl, inr, true, false, some, arith,
}
use mdfly.Common.Lookup.{find-holds}
use mdfly.Platform.{Platform}
use mdfly.Documents.Table.{Document, Database, found, has_slug, update_where, published}
use mdfly.Documents.Ops.{
  get_by_slug, update_manifest, update_guard, update_set, marshal_manifest, UpdateManifestParams,
  matches_edit_token,
}

-- A read that answers found the row of the slug, and it is published.
pub get_by_slug-found :
    (s : Str) (d : Database) {r : Document}
    → get_by_slug s d ≡ found r
    → (find (has_slug s) d.documents ≡ some r) × (r.slug ≡ s) × (r.status ≡ published)
unfolding get_by_slug
get_by_slug-found s d {r} e = elim (Option-cases (find (has_slug s) d.documents)) [
  | inl n ↦ cc n
  | inr (x, h) ↦ ground (arith, find-holds (has_slug s) d.documents h, str_eq_iff x.slug s)
]

module _ (pf : Platform) where
  -- A guarded UPDATE that answers changed exactly the row that its guard picked.
  pub update_manifest-found :
      (p : UpdateManifestParams) (now : ℕ) (d : Database) {r' : Document}
      → (update_manifest pf p now d).1 ≡ found r'
      → (m : Str × Str) × (marshal_manifest pf p.manifest ≡ some m)
        × (r : Document) × (find (update_guard p) d.documents ≡ some r)
        × (r' ≡ update_set pf p m now r)
        × ((update_manifest pf p now d).0.documents
            ≡ update_where (update_guard p) (update_set pf p m now) d.documents)
  unfolding update_manifest
  update_manifest-found p now d {r'} e = elim (Option-cases (marshal_manifest pf p.manifest)) [
    | inl n ↦ cc n
    | inr (m, h) ↦ elim (Option-cases (find (update_guard p) d.documents)) [
      | inl n ↦ ground arith
      | inr (r, g) ↦ (m, h, r, g, ground arith, ground arith)
    ]
  ]

-- The token is the one whose hash the row has.
abbrev pub Opens : Platform → Document → Str → Type 0
Opens pf row token =
    (is_empty token ≡ false)
    × ((is_empty row.edit_token_hash ≡ false) × (pf.sha256 token ≡ row.edit_token_hash))

pub matches_edit_token-Opens :
    (pf : Platform) (row : Document) (token : Str)
    → matches_edit_token pf row token ≡ true
    → Opens pf row token
unfolding matches_edit_token
matches_edit_token-Opens pf row token h =
    ground (arith, str_eq_iff (pf.sha256 token) row.edit_token_hash)
