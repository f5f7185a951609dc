-- ===== src/Documents/Invariant.antt =====
-- The constraints of the table (PRIMARY KEY and UNIQUE of the migrations), and that statements keep
-- them.
use mdfly.Common.{
  if◌then◌else◌, any, All, ℕ, ◌+◌, ◌<◌, ◌≡◌, refl, Bool, false, List, [], ◌∷◌, ◌++◌, map, arith,
}
use mdfly.Documents.Table.{Document, Database, update_where, has_slug, has_key}
use mdfly.Documents.Selection.{same_id}
use mdfly.Common.Unique.{UniqueBy, UniqueBy-map, UniqueBy-append, All-append_last}

abbrev pub same_slug : Document → Document → Bool
same_slug a b = has_slug b.slug a

abbrev pub same_key : Document → Document → Bool
same_key a b = has_key b.idempotency_key a

abbrev pub Below : ℕ → Document → Type 0
Below n r = r.id < n

pub record IsTable (d : Database) : Type 0 where
  pub unique_ids : UniqueBy same_id d.documents
  pub ids_below : All (Below d.next_id) d.documents
  pub unique_slugs : UniqueBy same_slug d.documents
  pub unique_keys : UniqueBy same_key d.documents

-- A change of a row that leaves its three keys alone.
pub record SameKeys (r r' : Document) : Type 0 where
  pub id_kept : r'.id ≡ r.id
  pub slug_kept : r'.slug ≡ r.slug
  pub key_kept : r'.idempotency_key ≡ r.idempotency_key

All-Below-map :
    (n : ℕ) (g : Document → Document)
    → ((r : Document) → SameKeys r (g r))
    → (xs : List Document) → All (Below n) xs
    → All (Below n) (map g xs)
All-Below-map n g h [] a = tt
All-Below-map n g h (x ∷ xs) a = (rw (h x).id_kept a.0, All-Below-map n g h xs a.1)

map-IsTable :
    (g : Document → Document)
    → ((r : Document) → SameKeys r (g r))
    → (d : Database) → IsTable d
    → IsTable (record d { documents = map g d.documents })
map-IsTable g h d t = record {
  unique_ids =
      UniqueBy-map same_id g (λ a b. rw ((h a).id_kept, (h b).id_kept)) d.documents t.unique_ids;
  ids_below = All-Below-map d.next_id g h d.documents t.ids_below;
  unique_slugs =
      UniqueBy-map same_slug g (λ a b. rw ((h a).slug_kept, (h b).slug_kept)) d.documents
        t.unique_slugs;
  unique_keys =
      UniqueBy-map same_key g (λ a b. rw ((h a).key_kept, (h b).key_kept)) d.documents
        t.unique_keys;
}

guarded_keys :
    (p : Document → Bool) (f : Document → Document)
    → ((r : Document) → SameKeys r (f r))
    → (r : Document) → SameKeys r (if p r then f r else r)
guarded_keys p f h r = ground (arith, h r)

-- An `UPDATE` that assigns no key keeps the constraints.
pub update_where-IsTable :
    (p : Document → Bool) (f : Document → Document)
    → ((r : Document) → SameKeys r (f r))
    → (d : Database) → IsTable d
    → IsTable (record d { documents = update_where p f d.documents })
update_where-IsTable p f h d t = map-IsTable _ (guarded_keys p f h) d t

All-Below_suc : (n : ℕ) (xs : List Document) → All (Below n) xs → All (Below (n + 1)) xs
All-Below_suc n [] a = tt
All-Below_suc n (x ∷ xs) a = (omega (arith, a.0), All-Below_suc n xs a.1)

fresh_id :
    (n : ℕ) (xs : List Document) (row : Document)
    → All (Below n) xs
    → row.id ≡ n
    → any (λ x. same_id x row) xs ≡ false
fresh_id n [] row a e = refl
fresh_id n (x ∷ xs) row a e = ground (arith, fresh_id n xs row a.1 e, a.0)

-- A new row with the next id, an unused slug and an unused key may be added.
pub append-IsTable :
    (d : Database) (row : Document)
    → IsTable d
    → row.id ≡ d.next_id
    → any (has_slug row.slug) d.documents ≡ false
    → any (has_key row.idempotency_key) d.documents ≡ false
    → IsTable (record d { documents = d.documents ++ (row ∷ []); next_id = d.next_id + 1 })
append-IsTable d row t i s k = record {
  unique_ids =
      UniqueBy-append same_id d.documents row t.unique_ids
        (fresh_id d.next_id d.documents row t.ids_below i);
  ids_below =
      All-append_last (Below (d.next_id + 1)) d.documents row
        (All-Below_suc d.next_id d.documents t.ids_below) (omega (arith, i));
  unique_slugs = UniqueBy-append same_slug d.documents row t.unique_slugs s;
  unique_keys = UniqueBy-append same_key d.documents row t.unique_keys k;
}

pub bump-IsTable : (d : Database) → IsTable d → IsTable (record d { next_id = d.next_id + 1 })
bump-IsTable d t = record {
  unique_ids = t.unique_ids;
  ids_below = All-Below_suc d.next_id d.documents t.ids_below;
  unique_slugs = t.unique_slugs;
  unique_keys = t.unique_keys;
}
