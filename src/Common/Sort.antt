-- ===== src/Common/Sort.antt =====
-- `sort.SliceStable`: the stable order of a list by a test, as an insertion sort gives it.
use mathlib.Core.Path.{◌≡◌, refl}
use mathlib.Core.Bool.{Bool, true, false, ◌||◌}
use mathlib.Core.List.{List, [], ◌∷◌}
use mathlib.Core.Logic.{inl, inr}
use native.Mathlib.Omega.{arith}
use mdfly.Common.Bools.{if◌then◌else◌, Bool-cases}
use mdfly.Common.Lists.{any, All}

module _ {ℓ} {A : Type ℓ} (less : A → A → Bool) where
  unfoldable pub insert_sorted : A → List A → List A
  insert_sorted x [] = x ∷ []
  insert_sorted x (y ∷ ys) =
      let rest = insert_sorted x ys in if less y x then y ∷ rest else x ∷ y ∷ ys

  unfoldable pub sort_stable : List A → List A
  unfolding insert_sorted
  sort_stable [] = []
  sort_stable (x ∷ xs) = insert_sorted x (sort_stable xs)

  -- No entry stands behind one that it is less than.
  abbrev pub IsSorted : List A → Type 0
  IsSorted [] = Unit
  IsSorted (x ∷ xs) = All (λ y. less y x ≡ false) xs × IsSorted xs

module _ {ℓ} {A : Type ℓ} (less : A → A → Bool) where
  All-insert_sorted :
      (P : A → Type 0) (x : A) (ys : List A) → P x → All P ys → All P (insert_sorted less x ys)
  unfolding insert_sorted
  All-insert_sorted P x [] px h = (px, tt)
  All-insert_sorted P x (y ∷ ys) px h = elim (Bool-cases (less y x)) [
    | inl t ↦ rw t (h.0, All-insert_sorted P x ys px h.1)
    | inr f ↦ rw f (px, h)
  ]

  pub All-sort_stable : (P : A → Type 0) (xs : List A) → All P xs → All P (sort_stable less xs)
  unfolding sort_stable
  All-sort_stable P [] h = tt
  All-sort_stable P (x ∷ xs) h =
      All-insert_sorted P x (sort_stable less xs) h.0 (All-sort_stable P xs h.1)

  any-insert_sorted :
      (p : A → Bool) (x : A) (ys : List A) → any p (insert_sorted less x ys) ≡ (p x || any p ys)
  unfolding insert_sorted
  any-insert_sorted p x [] = refl
  any-insert_sorted p x (y ∷ ys) = ground (arith, any-insert_sorted p x ys)

  pub any-sort_stable : (p : A → Bool) (xs : List A) → any p (sort_stable less xs) ≡ any p xs
  unfolding sort_stable
  any-sort_stable p [] = refl
  any-sort_stable p (x ∷ xs) =
      ground (arith, any-insert_sorted p x (sort_stable less xs), any-sort_stable p xs)

  module _ (asym : (a b : A) → less a b ≡ true → less b a ≡ false)
      (ge_trans : (a b c : A) → less a b ≡ false → less b c ≡ false → less a c ≡ false) where
    All-ge :
        (x y : A) (ys : List A)
        → less y x ≡ false
        → All (λ z. less z y ≡ false) ys
        → All (λ z. less z x ≡ false) ys
    All-ge x y [] h all = tt
    All-ge x y (z ∷ ys) h all = (ge_trans z y x all.0 h, All-ge x y ys h all.1)

    insert_sorted-IsSorted :
        (x : A) (ys : List A) → IsSorted less ys → IsSorted less (insert_sorted less x ys)
    unfolding insert_sorted
    insert_sorted-IsSorted x [] h = (tt, tt)
    insert_sorted-IsSorted x (y ∷ ys) h = elim (Bool-cases (less y x)) [
      | inl t ↦ rw t (
        All-insert_sorted (λ z. less z y ≡ false) x ys (asym y x t) h.0,
        insert_sorted-IsSorted x ys h.1,
      )
      | inr f ↦ rw f ((f, All-ge x y ys f h.0), h)
    ]

    -- The order is sorted by an asymmetric test whose negation is transitive.
    pub sort_stable-IsSorted : (xs : List A) → IsSorted less (sort_stable less xs)
    unfolding sort_stable
    sort_stable-IsSorted [] = tt
    sort_stable-IsSorted (x ∷ xs) =
        insert_sorted-IsSorted x (sort_stable less xs) (sort_stable-IsSorted xs)
