-- ===== src/Documents/Selection.antt =====
-- The rows that a sweep statement picks by their ids are rows of the table that pass its test.
use mdfly.Common.{
  leb, Bool-cases, find, All, str_eq_refl, ℕ, ◌≡◌, inl, inr, Bool, true, false, some, List, [], ◌∷◌,
  arith,
}
use mdfly.Documents.Sweep.{candidates, has_id, in_candidates}
use mdfly.Documents.Table.{Document, has_slug}
use mdfly.Documents.Queue.{insert_by, sort_by}
use mdfly.Common.Lookup.{All-take}
use mdfly.Common.Unique.{UniqueBy, any-false-All, All-find, All-filter_both, All-map_both}

-- `r` is the row of its id.
abbrev pub Listed : List Document → Document → Type 0
Listed rows r = find (has_id r.id) rows ≡ some r

abbrev pub same_id : Document → Document → Bool
same_id a b = has_id a.id b

Listed-cons :
    (r : Document) (rows : List Document) (c : Document)
    → Listed rows c
    → same_id r c ≡ false
    → Listed (r ∷ rows) c
Listed-cons r rows c h k = ground arith

pub All-Listed : (rows : List Document) → UniqueBy same_id rows → All (Listed rows) rows
All-Listed [] u = tt
All-Listed (r ∷ rows) u = (
  ground arith,
  All-map_both (Listed rows) (Listed-cons r rows) rows (All-Listed rows u.1)
      (any-false-All (same_id r) rows u.0),
)

-- A row that a search finds is the row of its id.
pub find-Listed :
    (p : Document → Bool) (rows : List Document) {r : Document}
    → UniqueBy same_id rows
    → find p rows ≡ some r
    → Listed rows r
find-Listed p rows u e = All-find (Listed rows) p rows (All-Listed rows u) e

module _ {κ} (P : Document → Type κ) (key : Document → ℕ) where
  All-insert_by : (x : Document) (xs : List Document) → P x → All P xs → All P (insert_by key x xs)
  unfolding insert_by
  All-insert_by x [] h k = (h, tt)
  All-insert_by x (y ∷ ys) h k = elim (Bool-cases (leb (key x) (key y))) [
    | inl t ↦ rw t (h, k)
    | inr f ↦ rw f (k.0, All-insert_by x ys h k.1)
  ]

  pub All-sort_by : (xs : List Document) → All P xs → All P (sort_by key xs)
  unfolding sort_by
  All-sort_by [] h = tt
  All-sort_by (x ∷ xs) h = All-insert_by x (sort_by key xs) h.0 (All-sort_by xs h.1)

pub candidates-Listed :
    (p : Document → Bool) (key : Document → ℕ) (limit : ℕ) (rows : List Document)
    → UniqueBy same_id rows
    → All (λ c. Listed rows c × (p c ≡ true)) (candidates p key limit rows)
unfolding candidates
candidates-Listed p key limit rows u =
    All-take _ limit _
      (All-sort_by _ key _ (All-filter_both (Listed rows) p rows (All-Listed rows u)))

picked :
    (p : Document → Bool) (rows : List Document) (r : Document) (cs : List Document)
    → All (λ c. Listed rows c × (p c ≡ true)) cs
    → Listed rows r
    → in_candidates cs r ≡ true
    → p r ≡ true
picked p rows r [] h l t = cc
picked p rows r (c ∷ cs) h l t = ground (arith, picked p rows r cs h.1 l)

-- A row of the table whose id was picked passes the test of the statement.
pub in_candidates-holds :
    (p : Document → Bool) (key : Document → ℕ) (limit : ℕ) (rows : List Document) (r : Document)
    → UniqueBy same_id rows
    → Listed rows r
    → in_candidates (candidates p key limit rows) r ≡ true
    → p r ≡ true
in_candidates-holds p key limit rows r u l t =
    picked p rows r (candidates p key limit rows) (candidates-Listed p key limit rows u) l t

-- `r` is the row of its slug.
abbrev pub Slugged : List Document → Document → Type 0
Slugged rows r = find (has_slug r.slug) rows ≡ some r

Slugged-cons :
    (r : Document) (rows : List Document) (c : Document)
    → Slugged rows c
    → has_slug c.slug r ≡ false
    → Slugged (r ∷ rows) c
Slugged-cons r rows c h k = ground arith

pub All-Slugged :
    (rows : List Document) → UniqueBy (λ a b. has_slug b.slug a) rows → All (Slugged rows) rows
All-Slugged [] u = tt
All-Slugged (r ∷ rows) u = (
  ground (arith, str_eq_refl r.slug),
  All-map_both (Slugged rows) (Slugged-cons r rows) rows (All-Slugged rows u.1)
      (any-false-All (λ c. has_slug c.slug r) rows u.0),
)

pub candidates-Slugged :
    (p : Document → Bool) (key : Document → ℕ) (limit : ℕ) (rows : List Document)
    → UniqueBy (λ a b. has_slug b.slug a) rows
    → All (λ c. Slugged rows c × (p c ≡ true)) (candidates p key limit rows)
unfolding candidates
candidates-Slugged p key limit rows u =
    All-take _ limit _
      (All-sort_by _ key _ (All-filter_both (Slugged rows) p rows (All-Slugged rows u)))
