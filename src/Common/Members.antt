-- ===== src/Common/Members.antt =====
-- A string is among a list of strings.
use mathlib.Core.Path.{◌≡◌, refl}
use mathlib.Core.Logic.{◌⊎◌, inl, inr}
use mathlib.Core.Bool.{Bool, true, false, ◌||◌}
use mathlib.Core.List.{List, ◌∷◌, ◌++◌}
use native.Mathlib.Omega.{arith}
use mdfly.Common.Bools.{Bool-cases}
use mdfly.Common.Bytes.{Str, str_eq, str_eq_iff, str_eq_refl}
use mdfly.Common.Lists.{any}
use mdfly.Common.Lookup.{any-append}

abbrev pub among : List Str → Str → Bool
among ks k = any (str_eq k) ks

pub among-append : (xs ys : List Str) (k : Str) → among (xs ++ ys) k ≡ (among xs k || among ys k)
among-append xs ys k = any-append (str_eq k) xs ys

pub among-head :
    (x k : Str) (xs : List Str) → among (x ∷ xs) k ≡ true → (k ≡ x) ⊎ (among xs k ≡ true)
among-head x k xs h = elim (Bool-cases (str_eq k x)) [
  | inl t ↦ inl ((str_eq_iff k x).0 t)
  | inr f ↦ inr (rw f at h)
]

pub among-here : (k : Str) (ks : List Str) → among (k ∷ ks) k ≡ true
among-here k ks = ground (arith, str_eq_refl k)

pub among-behind : (x k : Str) (xs : List Str) → among xs k ≡ true → among (x ∷ xs) k ≡ true
among-behind x k xs h = ground arith

pub or-cases : (a b : Bool) → (a || b) ≡ true → (a ≡ true) ⊎ (b ≡ true)
or-cases true b h = inl refl
or-cases false b h = inr h
