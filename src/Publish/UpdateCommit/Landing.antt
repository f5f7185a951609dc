-- ===== src/Publish/UpdateCommit/Landing.antt =====
-- What an update leaves, told by the reads of the table.
use mdfly.Common.{
  Option-cases, find, Str, str_eq, str_eq_iff, is_empty, ℕ, ◌≡◌, refl, sym, ap, ◌∙◌, subst, ◌⊎◌,
  inl, inr, true, false, Option, none, some, [], ◌∷◌, arith,
}
use mdfly.Common.Hex.{encode, decode}
use mdfly.Common.Lookup.{find-holds}
use mdfly.Httpx.{ok}
use mdfly.Manifest.Build.{Manifest}
use mdfly.Publish.Service.{Service}
use mdfly.Publish.Update.{manifest_hash_of}
use mdfly.Publish.UpdateCommit.{parent_of}
use mdfly.Publish.UpdateCommit.Laws.{
  manifest_hash_of-content, hash-update_set, IsLive, Overwrites, Landed, params_of,
}
use mdfly.Documents.Table.{Document, Database, found, scan, has_slug, published, is_published}
use mdfly.Documents.Ops.{
  get_by_slug, get_by_slug_any, update_guard, update_set, UpdateManifestParams, manifest_hash_hex,
  parent_matches, marshal_manifest, manifest_hash,
}
use mdfly.Documents.Effects.{find_unique, find-update_where, update_where-apart, slugs-apart}
use mdfly.Documents.Queue.Laws.{IsQueued}
use mdfly.Documents.Invariant.{IsTable, same_slug}

module _ (sv : Service) where
  abbrev pub IsHashOf : Manifest → Str → Type 0
  IsHashOf m hash =
      (json : Str) × ((sv.platform.marshal m ≡ some json)
        × (hash ≡ encode (sv.platform.sha256 json)))

  pub manifest_hash_of-IsHashOf :
      (m : Manifest) (hash : Str) → manifest_hash_of sv m ≡ ok hash → IsHashOf m hash
  unfolding manifest_hash_of manifest_hash marshal_manifest
  manifest_hash_of-IsHashOf m hash h = elim (Option-cases (sv.platform.marshal m)) [
    | inl n ↦ let no = rw (manifest_hash_of, n) at h in cc
    | inr (json, e) ↦ (json, (e, ground arith))
  ]

  -- The row has the hash that the request names as its parent, in hex, or the request names none.
  abbrev pub IsParent : Str → Document → Type 0
  IsParent parent_hex old =
      (is_empty parent_hex ≡ true) ⊎ (decode parent_hex ≡ some old.manifest_hash)

  -- The live row of the slug was the parent, and has the new hash now; no other slug is touched.
  abbrev pub Replaces : Str → Str → Str → ℕ → Database → Database → Type 0
  Replaces s parent_hex next now before after =
      (old : Document) × ((get_by_slug s before ≡ found old)
        × (IsParent parent_hex old
            × (IsLive sv s next after
                × (IsQueued s now after.purge_queue
                    × ((t : Str)
                        → str_eq s t ≡ false
                        → get_by_slug_any t after ≡ get_by_slug_any t before)))))

  abbrev pub IsLanded : Str → Str → Str → ℕ → Database → Database → Type 0
  IsLanded s parent_hex next now before after =
      IsLive sv s next after ⊎ Replaces s parent_hex next now before after

  parent_of-IsParent :
      (parent_hex : Str) (parent : Option Str) (old : Document)
      → parent_of parent_hex ≡ ok parent
      → parent_matches parent old ≡ true
      → IsParent parent_hex old
  unfolding parent_of is_empty
  parent_of-IsParent [] parent old h g = inl refl
  parent_of-IsParent (c ∷ s) none old h g = inr (ground arith)
  parent_of-IsParent (c ∷ s) (some p) old h g = inr (ground (arith, str_eq_iff old.manifest_hash p))

  published_read :
      (s : Str) (d : Database) (r : Document)
      → find (has_slug s) d.documents ≡ some r
      → is_published r.status ≡ true
      → get_by_slug s d ≡ found r
  unfolding get_by_slug
  published_read s d r e p =
      let live : r.status ≡ published = ground arith in rw (get_by_slug, e, live) refl

  guard_parts :
      (p : UpdateManifestParams) (r : Document)
      → update_guard p r ≡ true
      → (has_slug p.slug r ≡ true)
        × ((is_published r.status ≡ true) × (parent_matches p.parent_manifest_hash r ≡ true))
  guard_parts p r h = ground arith

  kept :
      (p : UpdateManifestParams) (c : Str × Str) (now : ℕ) (r : Document)
      → ((update_set sv.platform p c now r).slug ≡ r.slug)
        × ((update_set sv.platform p c now r).status ≡ r.status)
  unfolding update_set
  kept p (j, h) now r = (refl, refl)

  not_guarded :
      (p : UpdateManifestParams) (t : Str)
      → str_eq p.slug t ≡ false
      → (r : Document) → has_slug t r ≡ true
      → update_guard p r ≡ false
  not_guarded p t other r h = let apart = slugs-apart p.slug t other r h in rw (apart) refl

  Overwrites-Replaces :
      (s parent_hex : Str) (m : Manifest) (next : Str) (now : ℕ) (before after : Database)
      (parent : Option Str) (row : Document)
      → IsTable before
      → manifest_hash_of sv m ≡ ok next
      → parent_of parent_hex ≡ ok parent
      → Overwrites sv (params_of sv s m parent now) now before after row
      → Replaces s parent_hex next now before after
  unfolding get_by_slug_any
  Overwrites-Replaces s parent_hex m next now before after parent row t hash k o =
      let p = params_of sv s m parent now in
      let set = update_set sv.platform p o.content now in
      let (at, (live, same)) =
        guard_parts p o.old (find-holds (update_guard p) before.documents o.guarded) in
      let here =
        find_unique same_slug (has_slug s) (update_guard p) (λ r h. (guard_parts p r h).0)
          (λ a b x y.
            ground (arith, str_eq_iff a.slug s, str_eq_iff b.slug s, str_eq_iff a.slug b.slug))
          before.documents o.old t.unique_slugs o.guarded in
      let guarded_here = find-holds (update_guard p) before.documents o.guarded in
      let now_here : find (has_slug s) after.documents ≡ some (set o.old) =
        ap (find (has_slug s)) o.rows_set
        ∙ find-update_where (has_slug s) (update_guard p) set
            (λ r. ap (λ x. str_eq x s) (kept p o.content now r).0) before.documents
        ∙ rw (here, guarded_here) refl in
      let same_hash : ok (encode o.content.1) ≡ ok next =
        sym (manifest_hash_of-content sv m o.content o.marshalled) ∙ hash in
      let hashed : manifest_hash_hex (set o.old) ≡ next =
        hash-update_set sv p o.content now o.old (set o.old) refl ∙ cc in
      let row_slug : row.slug ≡ o.old.slug =
        ap (λ r. r.slug) o.row_set ∙ (kept p o.content now o.old).0 in
      (
        o.old,
        (
          published_read s before o.old here live,
          (
            parent_of-IsParent parent_hex parent o.old k same,
            (
              (
                set o.old,
                published_read s after (set o.old) now_here
                    (ap is_published (kept p o.content now o.old).1 ∙ live),
                hashed,
              ),
              (
                subst (λ x. IsQueued x now after.purge_queue)
                    (row_slug ∙ (str_eq_iff o.old.slug s).0 at) o.queued,
                λ x other.
                    ap (λ xs. scan (find (has_slug x) xs)) o.rows_set
                    ∙ ap scan (
                        update_where-apart (has_slug x) (update_guard p) set
                          (λ r. ap (λ y. str_eq y x) (kept p o.content now r).0)
                          (not_guarded p x other) before.documents),
              ),
            ),
          ),
        ),
      )

  pub Landed-IsLanded :
      (s parent_hex : Str) (m : Manifest) (next : Str) (now : ℕ) (before after : Database)
      → IsTable before
      → manifest_hash_of sv m ≡ ok next
      → Landed sv s parent_hex m next now before after
      → IsLanded s parent_hex next now before after
  Landed-IsLanded s parent_hex m next now before after t hash (inl live) = inl live
  Landed-IsLanded s parent_hex m next now before after t hash (inr (parent, row, k, o)) =
      inr (Overwrites-Replaces s parent_hex m next now before after parent row t hash k o)
