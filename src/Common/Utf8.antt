-- ===== src/Common/Utf8.antt =====
-- `utf8.Valid`: the well-formed sequences of the Unicode standard.
use Prim.Native.Nat.{ℕ, zero, suc}
use mathlib.Core.Bool.{Bool, true, false, ◌&&◌}
use mathlib.Core.List.{[], ◌∷◌}
use mathlib.Core.Option.{Option, none, some}
use mdfly.Common.Bools.{leb, ltb, ◌==◌, if◌then◌else◌}
use mdfly.Common.Bytes.{Str}

-- How many bytes follow a first byte, and the range of the next one; none where it starts nothing.
unfoldable pub lead : ℕ → Option (ℕ × (ℕ × ℕ))
lead c =
    if ltb c 128
    then some (0, (0, 0))
    else if ltb c 194
    then none
    else if ltb c 224
    then some (1, (128, 191))
    else if c == 224
    then some (2, (160, 191))
    else if c == 237
    then some (2, (128, 159))
    else if ltb c 240
    then some (2, (128, 191))
    else if c == 240
    then some (3, (144, 191))
    else if ltb c 244
    then some (3, (128, 191))
    else if c == 244
    then some (3, (128, 143))
    else none

-- With `n` bytes due, the next of them from `lo` to `hi`.
unfoldable pub valid_with : ℕ → ℕ → ℕ → Str → Bool
unfolding lead
valid_with zero lo hi [] = true
valid_with (suc n) lo hi [] = false
valid_with zero lo hi (c ∷ s) = elim (lead c) [
  | none ↦ false
  | some (n, (l, h)) ↦ valid_with n l h s
]
valid_with (suc n) lo hi (c ∷ s) = let rest = valid_with n 128 191 s in leb lo c && leb c hi && rest

unfoldable pub valid : Str → Bool
unfolding valid_with
valid s = valid_with 0 0 0 s
