-- ===== src/View/Address.antt =====
-- resolver.go: the address of a page (`slugPageURL`) and what follows a reference (`splitRefSuffix`,
-- `appendSuffix`).
pub mod Laws
use mdfly.Common.{
  ltb, ◌==◌, if◌then◌else◌, Str, codes, cut_prefix, has_byte, ℕ, ◌+◌, Bool, ◌&&◌, ◌||◌, none, some,
  [], ◌∷◌, ◌++◌,
}
use mdfly.Common.Decimal.{itoa}

-- The number of leading "../" and what is behind them.
unfoldable pub split_up : Str → ℕ × Str
split_up (a ∷ b ∷ c ∷ s) =
    let rest = split_up s in
    if a == b'.' && b == b'.' && c == b'/' then (rest.0 + 1, rest.1) else (0, a ∷ b ∷ c ∷ s)
split_up s = (0, s)

-- The value of the `up` parameter of an address, empty where it has none.
unfoldable pub up_param : ℕ → Str
unfolding itoa
up_param n = if ltb 0 n then itoa n else []

unfoldable pub slug_page_url : Str → Str → Str
unfolding split_up up_param
slug_page_url slug key =
    let (up, rest) = split_up key in
    let url = codes "/" ++ (slug ++ (codes "/" ++ rest)) in
    if ltb 0 up then url ++ (codes "?up=" ++ up_param up) else url

abbrev pub starts_suffix : ℕ → Bool
starts_suffix c = c == b'?' || c == b'#'

unfoldable pub split_ref_suffix : Str → Str × Str
split_ref_suffix [] = ([], [])
split_ref_suffix (c ∷ s) =
    let rest = split_ref_suffix s in if starts_suffix c then ([], c ∷ s) else (c ∷ rest.0, rest.1)

unfoldable pub append_suffix : Str → Str → Str
unfolding cut_prefix has_byte
append_suffix url suffix = elim (cut_prefix suffix (codes "?")) [
  | none ↦ url ++ suffix
  | some query ↦ if has_byte b'?' url then url ++ (codes "&" ++ query) else url ++ suffix
]
