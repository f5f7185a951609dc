-- ===== src/Common/Trim.antt =====
-- Laws of `trim`: a trimmed string stays as it is.
use Prim.Native.Nat.{ℕ}
use mathlib.Core.Path.{◌≡◌, refl, ap, ◌∙◌}
use mathlib.Core.Logic.{inl, inr}
use mathlib.Core.Bool.{Bool, true, false, not}
use mathlib.Core.List.{[], ◌∷◌, ◌++◌}
use native.Mathlib.Omega.{arith}
use mdfly.Common.Bools.{Bool-cases}
use mdfly.Common.Bytes.{Str, is_empty, trim, trim_left, trim_right}

append_filled : (s t : Str) → is_empty t ≡ false → is_empty (s ++ t) ≡ false
unfolding is_empty
append_filled [] t h = h
append_filled (c ∷ s) t h = refl

module _ (p : ℕ → Bool) where
  -- The first byte, if there is one, is not of the set.
  abbrev starts_outside : Str → Bool
  starts_outside [] = true
  starts_outside (c ∷ s) = not (p c)

  trim_left-starts : (s : Str) → starts_outside (trim_left p s) ≡ true
  unfolding trim_left
  trim_left-starts [] = refl
  trim_left-starts (c ∷ s) = elim (Bool-cases (p c)) [
    | inl t ↦ rw (t, trim_left) (trim_left-starts s)
    | inr f ↦ rw (f, trim_left) (rw f refl)
  ]

  trim_left-same : (s : Str) → starts_outside s ≡ true → trim_left p s ≡ s
  unfolding trim_left
  trim_left-same [] h = refl
  trim_left-same (c ∷ s) h = ground arith

  trim_right-starts : (s : Str) → starts_outside s ≡ true → starts_outside (trim_right p s) ≡ true
  unfolding trim_right
  trim_right-starts [] h = refl
  trim_right-starts (c ∷ s) h = ground arith

  trim_right_idem : (s : Str) → trim_right p (trim_right p s) ≡ trim_right p s
  unfolding trim_right is_empty
  trim_right_idem [] = refl
  trim_right_idem (c ∷ s) = ground (arith, trim_right_idem s)

  -- What is put in front of a string that is trimmed, and not empty, is not trimmed at its end.
  pub trim_right-append :
      (s t : Str) → is_empty t ≡ false → trim_right p t ≡ t → trim_right p (s ++ t) ≡ s ++ t
  unfolding trim_right
  trim_right-append [] t h k = k
  trim_right-append (c ∷ s) t h k = ground (arith, trim_right-append s t, append_filled s t h)

  pub trim-right : (s : Str) → trim_right p (trim p s) ≡ trim p s
  unfolding trim
  trim-right s = trim_right_idem (trim_left p s)

  pub trim-left : (s : Str) → trim_left p (trim p s) ≡ trim p s
  unfolding trim
  trim-left s =
      trim_left-same (trim_right p (trim_left p s))
        (trim_right-starts (trim_left p s) (trim_left-starts s))

  pub trim_idem : (s : Str) → trim p (trim p s) ≡ trim p s
  unfolding trim
  trim_idem s = ap (trim_right p) (trim-left s) ∙ trim-right s

  pub trim-same :
      (c : ℕ) (s : Str) → p c ≡ false → trim_right p (c ∷ s) ≡ c ∷ s → trim p (c ∷ s) ≡ c ∷ s
  unfolding trim
  trim-same c s f h = ap (trim_right p) (trim_left-same (c ∷ s) (rw f refl)) ∙ h
