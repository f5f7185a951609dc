-- ===== src/Common/Bytes.antt =====
-- Go strings are byte sequences: lists of numbers, so that the code that walks them can be followed.
use Prim.Native.Char.{code}
use Prim.Native.Nat.{ℕ, ◌+◌}
use Prim.Native.String.{String}
use mathlib.Core.Path.{◌≡◌, refl}
use mathlib.Core.Logic.{◌↔◌}
use mathlib.Core.Bool.{Bool, true, false, not, ◌&&◌, ◌||◌}
use mathlib.Core.List.{List, [], ◌∷◌, ◌++◌}
use mathlib.Core.Option.{Option, none, some}
use native.Mathlib.Omega.{arith}
use mdfly.Common.Bools.{◌==◌, leb, if◌then◌else◌}

abbrev pub Str : Type 0
Str = List ℕ

-- The bytes of an ASCII literal.
abbrev pub codes : String → Str
codes String.[] = []
codes (String.◌∷◌ c s) = code c ∷ codes s

unfoldable pub str_eq : Str → Str → Bool
str_eq [] [] = true
str_eq (x ∷ xs) (y ∷ ys) = x == y && str_eq xs ys
str_eq _ _ = false

pub str_eq_iff : (s t : Str) → (str_eq s t ≡ true) ↔ (s ≡ t)
unfolding str_eq
str_eq_iff [] [] = (λ h. refl, λ h. refl)
str_eq_iff [] (y ∷ ys) = (λ h. cc, λ h. cc)
str_eq_iff (x ∷ xs) [] = (λ h. cc, λ h. cc)
str_eq_iff (x ∷ xs) (y ∷ ys) = ground (arith, str_eq_iff xs ys)

pub str_eq_refl : (s : Str) → str_eq s s ≡ true
str_eq_refl s = (str_eq_iff s s).1 refl

unfoldable pub is_empty : Str → Bool
is_empty [] = true
is_empty (_ ∷ _) = false

pub is_empty_iff : (s : Str) → (is_empty s ≡ true) ↔ (s ≡ [])
unfolding is_empty
is_empty_iff [] = (λ h. refl, λ h. refl)
is_empty_iff (x ∷ s) = (λ h. cc, λ h. cc)

-- The rest of `s` behind the prefix, as `strings.CutPrefix` gives it.
unfoldable pub cut_prefix : Str → Str → Option Str
cut_prefix s [] = some s
cut_prefix [] (_ ∷ _) = none
cut_prefix (x ∷ s) (p ∷ ps) = elim (x == p) [ true ↦ cut_prefix s ps | false ↦ none ]

-- `strings.HasPrefix`
unfoldable pub has_prefix : Str → Str → Bool
unfolding cut_prefix
has_prefix s p = elim (cut_prefix s p) [ none ↦ false | some _ ↦ true ]

pub cut_prefix-append : (p s : Str) → cut_prefix (p ++ s) p ≡ some s
unfolding cut_prefix
cut_prefix-append [] s = refl
cut_prefix-append (x ∷ p) s = ground (arith, cut_prefix-append p s)

pub has_prefix-append : (p s : Str) → has_prefix (p ++ s) p ≡ true
unfolding has_prefix
has_prefix-append p s = ground (arith, cut_prefix-append p s)

pub cut_prefix-eq : (s p : Str) {rest : Str} → cut_prefix s p ≡ some rest → s ≡ p ++ rest
unfolding cut_prefix
cut_prefix-eq s [] h = ground arith
cut_prefix-eq [] (x ∷ p) h = cc
cut_prefix-eq (y ∷ s) (x ∷ p) {rest} h = ground (arith, cut_prefix-eq s p {rest = rest})

-- `strings.Contains(s, string(c))` and `strings.ContainsRune` for an ASCII `c`.
unfoldable pub has_byte : ℕ → Str → Bool
has_byte c [] = false
has_byte c (x ∷ s) = x == c || has_byte c s

-- `strings.ToLower` on ASCII: other bytes stay.
abbrev pub lower_byte : ℕ → ℕ
lower_byte c = if leb b'A' c && leb c b'Z' then c + 32 else c

unfoldable pub to_lower : Str → Str
to_lower [] = []
to_lower (c ∷ s) = lower_byte c ∷ to_lower s

-- `filepath.Ext`: from the last dot of the last element on, empty if it has none.
unfoldable pub ext : Str → Str
unfolding has_byte is_empty
ext [] = []
ext (c ∷ s) =
    let e = ext s in
    if not (is_empty e) then e else if c == b'.' && not (has_byte b'/' s) then c ∷ s else []

-- Leading bytes of a set dropped, and `strings.Trim` of a set at both ends.
unfoldable pub trim_left : (ℕ → Bool) → Str → Str
trim_left p [] = []
trim_left p (c ∷ s) = elim (p c) [ true ↦ trim_left p s | false ↦ c ∷ s ]

unfoldable pub trim_right : (ℕ → Bool) → Str → Str
unfolding is_empty
trim_right p [] = []
trim_right p (c ∷ s) = let rest = trim_right p s in if p c && is_empty rest then [] else c ∷ rest

unfoldable pub trim : (ℕ → Bool) → Str → Str
unfolding trim_left trim_right
trim p s = trim_right p (trim_left p s)

-- The ASCII white space of `strings.TrimSpace`.
abbrev pub is_space : ℕ → Bool
is_space c = (leb 9 c && leb c 13) || c == 32

abbrev pub is_slash : ℕ → Bool
is_slash c = c == b'/'
