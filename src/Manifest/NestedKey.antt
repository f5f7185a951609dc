-- ===== src/Manifest/NestedKey.antt =====
-- manifest.go: the key of a nested page, from the path and the `?up=N` of its address.
use mdfly.Common.{
  ltb, if◌then◌else◌, Str, codes, is_empty, trim, is_slash, pos, negsuc, ℕ, zero, suc, Option, none,
  some, [], ◌++◌,
}
use mdfly.Common.Decimal.{atoi}

abbrev pub max_up : ℕ
max_up = 16

-- `strings.Repeat`
unfoldable pub repeat : ℕ → Str → Str
repeat zero s = []
repeat (suc n) s = s ++ repeat n s

unfoldable pub up_count : Str → Option ℕ
unfolding is_empty atoi
up_count up = if is_empty up then some 0 else elim (atoi up) [
  | some (pos n) ↦ if ltb max_up n then none else some n
  | some (negsuc _) ↦ none
  | none ↦ none
]

unfoldable pub nested_key : Str → Str → Option Str
unfolding trim is_empty up_count repeat
nested_key rest up =
    let r = trim is_slash rest in
    if is_empty r
    then none
    else elim (up_count up) [ some n ↦ some (repeat n (codes "../") ++ r) | none ↦ none ]
