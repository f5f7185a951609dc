-- ===== src/Common/Lookup.antt =====
-- Laws of `find`, `any`, `filter` and `map` on lists of rows.
use Prim.Native.Nat.{ℕ, zero, suc}
use mathlib.Core.Path.{◌≡◌, refl}
use mathlib.Core.Bool.{Bool, true, false, ◌||◌}
use mathlib.Core.Option.{Option, none, some}
use mathlib.Core.List.{List, [], ◌∷◌, ◌++◌, map}
use native.Mathlib.Omega.{arith}
use mathlib.Core.Logic.{inl, inr}
use mdfly.Common.Bools.{Bool-cases}
use mdfly.Common.Lists.{find, any, filter, All, take}

abbrev pub map_option {ℓ κ} : {A : Type ℓ} {B : Type κ} → (A → B) → Option A → Option B
map_option f none = none
map_option f (some a) = some (f a)

module _ {ℓ} {A : Type ℓ} where
  -- A change of rows that keeps the test finds the changed row.
  pub find-map :
      (p : A → Bool) (g : A → A)
      → ((a : A) → p (g a) ≡ p a)
      → (xs : List A) → find p (map g xs) ≡ map_option g (find p xs)
  find-map p g h [] = refl
  find-map p g h (x ∷ xs) = ground (arith, h x, find-map p g h xs)

  pub find-append_some :
      (p : A → Bool) (xs ys : List A) {a : A} → find p xs ≡ some a → find p (xs ++ ys) ≡ some a
  find-append_some p [] ys e = cc
  find-append_some p (x ∷ xs) ys {a} e = ground (arith, find-append_some p xs ys {a = a})

  pub find-append_none :
      (p : A → Bool) (xs ys : List A) → find p xs ≡ none → find p (xs ++ ys) ≡ find p ys
  find-append_none p [] ys e = refl
  find-append_none p (x ∷ xs) ys e = ground (arith, find-append_none p xs ys)

  pub find-none_of_any : (p : A → Bool) (xs : List A) → any p xs ≡ false → find p xs ≡ none
  find-none_of_any p [] e = refl
  find-none_of_any p (x ∷ xs) e = ground (arith, find-none_of_any p xs)

  pub any-true_of_find : (p : A → Bool) (xs : List A) {a : A} → find p xs ≡ some a → any p xs ≡ true
  any-true_of_find p [] e = cc
  any-true_of_find p (x ∷ xs) {a} e = ground (arith, any-true_of_find p xs {a = a})

  -- What is found passes the test.
  pub find-holds : (p : A → Bool) (xs : List A) {a : A} → find p xs ≡ some a → p a ≡ true
  find-holds p [] e = cc
  find-holds p (x ∷ xs) {a} e = ground (arith, find-holds p xs {a = a})

  -- A row that passes a test found under a stronger one passes the weaker one.
  pub find-none_weaken :
      (p q : A → Bool)
      → ((a : A) → q a ≡ true → p a ≡ true)
      → (xs : List A) → find p xs ≡ none
      → find q xs ≡ none
  find-none_weaken p q h [] e = refl
  find-none_weaken p q h (x ∷ xs) e = ground (arith, h x, find-none_weaken p q h xs)

  pub any-map :
      (p : A → Bool) (g : A → A)
      → ((a : A) → p (g a) ≡ p a)
      → (xs : List A) → any p (map g xs) ≡ any p xs
  any-map p g h [] = refl
  any-map p g h (x ∷ xs) = ground (arith, h x, any-map p g h xs)

  pub any-append : (p : A → Bool) (xs ys : List A) → any p (xs ++ ys) ≡ (any p xs || any p ys)
  any-append p [] ys = refl
  any-append p (x ∷ xs) ys = ground (arith, any-append p xs ys)

  pub All-take {κ} : (P : A → Type κ) (n : ℕ) (xs : List A) → All P xs → All P (take n xs)
  All-take P zero xs h = tt
  All-take P (suc n) [] h = tt
  All-take P (suc n) (x ∷ xs) h = (h.0, All-take P n xs h.1)

  pub All-filter : (p : A → Bool) (xs : List A) → All (λ a. p a ≡ true) (filter p xs)
  All-filter p [] = tt
  All-filter p (x ∷ xs) = ground (arith, All-filter p xs)

  pub find-of_any : (p : A → Bool) (xs : List A) → any p xs ≡ true → (a : A) × (find p xs ≡ some a)
  find-of_any p [] e = cc
  find-of_any p (x ∷ xs) e = elim (Bool-cases (p x)) [
    | inl t ↦ (x, rw t)
    | inr f ↦ let (a, h) = find-of_any p xs (rw f at e) in (a, rw f h)
  ]

  -- A weaker test passes on what a stronger one passes on.
  pub any-imp :
      (p q : A → Bool)
      → ((a : A) → p a ≡ true → q a ≡ true)
      → (xs : List A) → any p xs ≡ true
      → any q xs ≡ true
  any-imp p q h [] e = cc
  any-imp p q h (x ∷ xs) e = ground (arith, h x, any-imp p q h xs)
