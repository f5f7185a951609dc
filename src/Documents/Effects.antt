-- ===== src/Documents/Effects.antt =====
-- What the statements of a request do, told by the reads of the table.
use mdfly.Common.{
  if◌then◌else◌, Bool-cases, Option-cases, find, Str, str_eq, str_eq_iff, ◌≡◌, refl, sym, ◌∙◌, inl,
  inr, Bool, true, false, some, List, [], ◌∷◌, arith,
}
use mdfly.Common.Lookup.{find-map, any-true_of_find, any-imp, map_option, find-holds}
use mdfly.Common.Unique.{UniqueBy}
use mdfly.Documents.Table.{Document, update_where, has_slug}

-- The only row that passes a test is the one that is found under a stronger one.
pub find_unique :
    {A : Type 0} (same : A → A → Bool) (p q : A → Bool)
    → ((a : A) → q a ≡ true → p a ≡ true)
    → ((a b : A) → p a ≡ true → p b ≡ true → same a b ≡ true)
    → (xs : List A) (r : A) → UniqueBy same xs
    → find q xs ≡ some r
    → find p xs ≡ some r
find_unique same p q h k [] r u e = cc
find_unique same p q h k (x ∷ xs) r u e = elim (Bool-cases (q x)) [
  | inl t ↦ let here = h x t in rw (here) (rw (t) at e)
  | inr f ↦ elim (Bool-cases (p x)) [
    | inl t ↦
        let later = any-true_of_find q xs (rw (f) at e) in
        let twice = any-imp q (same x) (λ a g. k x a t (h a g)) xs later in
        let no = sym twice ∙ u.0 in cc
    | inr g ↦ rw (g) (find_unique same p q h k xs r u.1 (rw (f) at e))
  ]
]

-- A row that is read by what an UPDATE keeps.
pub find-update_where :
    (p q : Document → Bool) (f : Document → Document)
    → ((r : Document) → p (f r) ≡ p r)
    → (xs : List Document)
    → find p (update_where q f xs) ≡ map_option (λ r. if q r then f r else r) (find p xs)
find-update_where p q f h xs =
    find-map p (λ r. if q r then f r else r)
      (λ r. elim (Bool-cases (q r)) [ inl t ↦ rw (t) (h r) | inr g ↦ rw (g) refl ]) xs

-- A row that the UPDATE does not pick reads as before.
pub update_where-apart :
    (p q : Document → Bool) (f : Document → Document)
    → ((r : Document) → p (f r) ≡ p r)
    → ((r : Document) → p r ≡ true → q r ≡ false)
    → (xs : List Document) → find p (update_where q f xs) ≡ find p xs
update_where-apart p q f h apart xs =
    find-update_where p q f h xs ∙ elim (Option-cases (find p xs)) [
      | inl n ↦ rw (n) refl
      | inr (r, e) ↦ let free = apart r (find-holds p xs e) in rw (e, free) refl
    ]

-- Two slugs, and their rows.
pub slugs-apart :
    (s t : Str) → str_eq s t ≡ false → (r : Document) → has_slug t r ≡ true → has_slug s r ≡ false
slugs-apart s t other r h = ground (arith, str_eq_iff r.slug s, str_eq_iff r.slug t, str_eq_iff s t)
