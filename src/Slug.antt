-- ===== src/Slug.antt =====
-- internal/slug: random slugs and the reserved words; `generateSlug` of publish_helpers.go.
-- The random source is a parameter: `rand k` is the answer of the k-th call of rand.Int, `none` an
-- error, and a number from 62 on would be out of range of the alphabet (a panic, here `none`).
pub mod Laws
use mdfly.Common.{
  any, Str, codes, str_eq, ℕ, zero, suc, ◌+◌, Bool, true, false, Option, none, some, List, [], ◌∷◌,
  map,
}

pub alphabet : Str
alphabet = codes "0123456789ABCDEFGHIJKLMNOPQRSTUVWXYZabcdefghijklmnopqrstuvwxyz"

abbrev pub slug_len : ℕ
slug_len = 8

abbrev pub slug_retries : ℕ
slug_retries = 10

pub reserved_words : List Str
reserved_words = map codes (
    "api" ∷ "storage" ∷ "healthz" ∷ "cli" ∷ "auth" ∷ "abuse" ∷ "_" ∷ "llm" ∷ "dashboard"
    ∷ "settings" ∷ "login" ∷ "logout" ∷ "signup" ∷ "account" ∷ "admin" ∷ "docs" ∷ "app" ∷ "landing"
    ∷ "static" ∷ "mdfly" ∷ "www" ∷ "mail" ∷ "ftp" ∷ "smtp" ∷ "about" ∷ "pricing" ∷ "terms"
    ∷ "privacy" ∷ "contact" ∷ [])

-- `IsReserved`
unfoldable pub is_reserved : Str → Bool
unfolding reserved_words str_eq
is_reserved s = any (str_eq s) reserved_words

abbrev pub nth : Str → ℕ → Option ℕ
nth [] i = none
nth (x ∷ xs) zero = some x
nth (x ∷ xs) (suc i) = nth xs i

unfoldable pub letter : Option ℕ → Option ℕ
unfolding alphabet
letter none = none
letter (some n) = nth alphabet n

unfoldable pub push : Option ℕ → Option Str → Option Str
push (some c) (some s) = some (c ∷ s)
push _ _ = none

-- The loop of `Generate` over the places left, from the k-th random number on.
unfoldable pub generate_from : (ℕ → Option ℕ) → ℕ → ℕ → Option Str
generate_from rand k zero = some []
generate_from rand k (suc n) = push (letter (rand k)) (generate_from rand (k + 1) n)

unfoldable pub generate : (ℕ → Option ℕ) → ℕ → Option Str
generate rand k = generate_from rand k slug_len

-- The loop of `generateSlug` over the tries left.
unfoldable pub generate_slug_from : (ℕ → Option ℕ) → ℕ → ℕ → Option Str
generate_slug_from rand k zero = none
generate_slug_from rand k (suc tries) = elim (generate rand k) [
  | none ↦ none
  | some s ↦ elim (is_reserved s) [
    | true ↦ generate_slug_from rand (k + slug_len) tries
    | false ↦ some s
  ]
]

unfoldable pub generate_slug : (ℕ → Option ℕ) → Option Str
generate_slug rand = generate_slug_from rand 0 slug_retries
