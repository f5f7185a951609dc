-- ===== src/Documents/Rows.antt =====
-- What one statement does to one row: the frame that it keeps and the statuses that it may reach.
use mdfly.Common.{
  if◌then◌else◌, Bool-cases, find, Str, ◌≡◌, refl, ap, ◌∙◌, inl, inr, Bool, true, false, some, List,
  arith,
}
use mdfly.Common.Lookup.{find-map, map_option}
use mdfly.Documents.Table.{
  Status, pending, published, deleted, expired, abandoned, Document, update_where, has_slug,
}
use mdfly.Documents.Selection.{same_id, Listed, find-Listed}
use mdfly.Common.Unique.{UniqueBy}

-- The statuses that a row may come to have, in any number of statements.
abbrev pub leads : Status → Status → Bool
leads pending t = true
leads published published = true
leads published expired = true
leads published deleted = true
leads expired expired = true
leads expired deleted = true
leads deleted deleted = true
leads abandoned abandoned = true
leads abandoned deleted = true
leads _ _ = false

pub leads_refl : (s : Status) → leads s s ≡ true
leads_refl pending = refl
leads_refl published = refl
leads_refl deleted = refl
leads_refl expired = refl
leads_refl abandoned = refl

pub leads_trans : (s t u : Status) → leads s t ≡ true → leads t u ≡ true → leads s u ≡ true
leads_trans s t u h k = ground arith

-- `r'` is a later version of `r`.
pub record RowStep (r r' : Document) : Type 0 where
  pub same_id : r'.id ≡ r.id
  pub same_slug : r'.slug ≡ r.slug
  pub same_key : r'.idempotency_key ≡ r.idempotency_key
  pub same_token : r'.edit_token_hash ≡ r.edit_token_hash
  pub same_created : r'.created_at ≡ r.created_at
  pub status_leads : leads r.status r'.status ≡ true

pub RowStep-refl : (r : Document) → RowStep r r
RowStep-refl r = ground (arith, leads_refl r.status)

pub RowStep-trans : (r s t : Document) → RowStep r s → RowStep s t → RowStep r t
RowStep-trans r s t h k = ground (arith, leads_trans r.status s.status t.status)

-- Each slug that has a row keeps it, in a later version.
abbrev pub KeepsRows : List Document → List Document → Type 0
KeepsRows xs ys =
    (s : Str) (r : Document)
    → find (has_slug s) xs ≡ some r
    → (r' : Document) × (find (has_slug s) ys ≡ some r') × RowStep r r'

pub KeepsRows-refl : (xs : List Document) → KeepsRows xs xs
KeepsRows-refl xs s r h = (r, h, RowStep-refl r)

pub KeepsRows-trans :
    (xs ys zs : List Document) → KeepsRows xs ys → KeepsRows ys zs → KeepsRows xs zs
KeepsRows-trans xs ys zs h k s r e =
    let (r', e', step) = h s r e in
    let (r'', e'', step') = k s r' e' in (r'', e'', RowStep-trans r r' r'' step step')

guarded : (Document → Bool) → (Document → Document) → Document → Document
guarded p f r = if p r then f r else r

guarded-RowStep :
    (p : Document → Bool) (f : Document → Document)
    → ((r : Document) → p r ≡ true → RowStep r (f r))
    → (r : Document) → RowStep r (guarded p f r)
unfolding guarded
guarded-RowStep p f h r = elim (Bool-cases (p r)) [
  | inl e ↦ rw e (h r e)
  | inr e ↦ rw e (RowStep-refl r)
]

has_slug-guarded :
    (p : Document → Bool) (f : Document → Document)
    → ((r : Document) → p r ≡ true → RowStep r (f r))
    → (s : Str) (r : Document) → has_slug s (guarded p f r) ≡ has_slug s r
has_slug-guarded p f h s r = rw (guarded-RowStep p f h r).same_slug

-- An `UPDATE` whose assignments make later versions keeps every row.
pub update_where-KeepsRows :
    (p : Document → Bool) (f : Document → Document)
    → ((r : Document) → p r ≡ true → RowStep r (f r))
    → (xs : List Document) → KeepsRows xs (update_where p f xs)
unfolding guarded
update_where-KeepsRows p f h xs s r e = (
  guarded p f r,
  find-map (has_slug s) (guarded p f) (has_slug-guarded p f h s) xs
      ∙ ap (map_option (guarded p f)) e,
  guarded-RowStep p f h r,
)

-- The same for an `UPDATE` that picks its rows: only those of the table have to make later versions.
pub picked-KeepsRows :
    (p : Document → Bool) (f : Document → Document) (xs : List Document)
    → UniqueBy same_id xs
    → ((r : Document) → (f r).slug ≡ r.slug)
    → ((r : Document) → Listed xs r → p r ≡ true → RowStep r (f r))
    → KeepsRows xs (update_where p f xs)
unfolding guarded
picked-KeepsRows p f xs u slugs h s r e = (
  guarded p f r,
  find-map (has_slug s) (guarded p f) (λ a. ground (arith, slugs a)) xs
      ∙ ap (map_option (guarded p f)) e,
  elim (Bool-cases (p r)) [
    | inl t ↦ rw t (h r (find-Listed (has_slug s) xs u e) t)
    | inr n ↦ rw n (RowStep-refl r)
  ],
)
