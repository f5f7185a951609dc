-- ===== src/Common/Unique.antt =====
-- Lists of rows in which no two agree on a test, such as an equal key.
use mathlib.Core.Path.{◌≡◌, refl, subst}
use mathlib.Core.Bool.{Bool, true, false, ◌||◌}
use mathlib.Core.Logic.{inl, inr}
use mathlib.Core.Option.{some, some-injective}
use mathlib.Core.List.{List, [], ◌∷◌, ◌++◌, map}
use native.Mathlib.Omega.{arith}
use mdfly.Common.Bools.{Bool-cases}
use mdfly.Common.Lists.{find, any, filter, All}

module _ {ℓ} {A : Type ℓ} where
  abbrev pub UniqueBy : (A → A → Bool) → List A → Type 0
  UniqueBy same [] = Unit
  UniqueBy same (x ∷ xs) = (any (same x) xs ≡ false) × UniqueBy same xs

  any-map_same :
      (same : A → A → Bool) (g : A → A)
      → ((a b : A) → same (g a) (g b) ≡ same a b)
      → (a : A) (xs : List A) → any (same (g a)) (map g xs) ≡ any (same a) xs
  any-map_same same g h a [] = refl
  any-map_same same g h a (x ∷ xs) = ground (arith, h a x, any-map_same same g h a xs)

  -- A change of rows that keeps the test keeps uniqueness.
  pub UniqueBy-map :
      (same : A → A → Bool) (g : A → A)
      → ((a b : A) → same (g a) (g b) ≡ same a b)
      → (xs : List A) → UniqueBy same xs
      → UniqueBy same (map g xs)
  UniqueBy-map same g h [] u = tt
  UniqueBy-map same g h (x ∷ xs) u =
      ground (arith, any-map_same same g h x xs, UniqueBy-map same g h xs u.1)

  any-append_last :
      (p : A → Bool) (xs : List A) (y : A) → any p (xs ++ (y ∷ [])) ≡ (any p xs || p y)
  any-append_last p [] y = ground arith
  any-append_last p (x ∷ xs) y = ground (arith, any-append_last p xs y)

  -- A row that no row agrees with may be added at the end.
  pub UniqueBy-append :
      (same : A → A → Bool) (xs : List A) (y : A)
      → UniqueBy same xs
      → any (λ x. same x y) xs ≡ false
      → UniqueBy same (xs ++ (y ∷ []))
  UniqueBy-append same [] y u f = (refl, tt)
  UniqueBy-append same (x ∷ xs) y u f =
      ground (arith, any-append_last (same x) xs y, UniqueBy-append same xs y u.1)

  -- Of the rows that a failed search went through none passes its test.
  pub any-false-All : (p : A → Bool) (xs : List A) → any p xs ≡ false → All (λ a. p a ≡ false) xs
  any-false-All p [] h = tt
  any-false-All p (x ∷ xs) h = ground (arith, any-false-All p xs)

module _ {ℓ κ} {A : Type ℓ} (P : A → Type κ) where
  pub All-find : (p : A → Bool) (xs : List A) {a : A} → All P xs → find p xs ≡ some a → P a
  All-find p [] h e = cc
  All-find p (x ∷ xs) {a} h e = elim (Bool-cases (p x)) [
    | inl t ↦ subst P (some-injective x a (rw t at e)) h.0
    | inr f ↦ All-find p xs h.1 (rw f at e)
  ]

  pub All-filter_both :
      (p : A → Bool) (xs : List A) → All P xs → All (λ a. P a × (p a ≡ true)) (filter p xs)
  All-filter_both p [] h = tt
  All-filter_both p (x ∷ xs) h = elim (Bool-cases (p x)) [
    | inl t ↦ rw t ((h.0, t), All-filter_both p xs h.1)
    | inr f ↦ rw f (All-filter_both p xs h.1)
  ]

  pub All-map_both {ι ν} :
      {Q : A → Type ι} {R : A → Type ν}
      → ((a : A) → P a → Q a → R a)
      → (xs : List A) → All P xs
      → All Q xs
      → All R xs
  All-map_both f [] h k = tt
  All-map_both f (x ∷ xs) h k = (f x h.0 k.0, All-map_both f xs h.1 k.1)

  pub All-append_last : (xs : List A) (y : A) → All P xs → P y → All P (xs ++ (y ∷ []))
  All-append_last [] y h k = (k, tt)
  All-append_last (x ∷ xs) y h k = (h.0, All-append_last xs y h.1 k)
