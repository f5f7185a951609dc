-- ===== src/View/Address/Laws.antt =====
-- The address of a page leads back to the key of the page.
use mathlib.Core.List.{append_assoc}
use mdfly.Common.{
  ltb, leb, ◌==◌, if◌then◌else◌, Bool-cases, All, Str, codes, is_empty, trim, is_slash, ℕ, suc, ◌+◌,
  ◌≤◌, ◌≡◌, refl, sym, ap, ◌∙◌, ◌≢◌, inl, inr, Bool, true, false, ◌&&◌, ◌||◌, Option, some, [], ◌∷◌,
  ◌++◌, arith,
}
use mdfly.Common.Decimal.{itoa, atoi-itoa, itoa-nonempty}
use mdfly.Manifest.NestedKey.{repeat, nested_key, max_up, up_count}
use mdfly.View.Address.{split_up, up_param, slug_page_url}
use mdfly.Common.Paths.{clean}
use mdfly.View.Resolver.{is_letter}

dots_of :
    (a b c : ℕ)
    → (a == b'.' && b == b'.' && c == b'/') ≡ true
    → (a ≡ b'.') × ((b ≡ b'.') × (c ≡ b'/'))
dots_of a b c h = ground arith

repeat_next : (n : ℕ) (s : Str) → repeat (n + 1) s ≡ s ++ repeat n s
unfolding repeat
repeat_next n s = let next : n + 1 ≡ suc n = omega arith in rw next refl

split_up-whole : (key : Str) → repeat (split_up key).0 (codes "../") ++ (split_up key).1 ≡ key
unfolding split_up repeat
split_up-whole [] = refl
split_up-whole (a ∷ []) = refl
split_up-whole (a ∷ b ∷ []) = refl
split_up-whole (a ∷ b ∷ c ∷ s) = elim (Bool-cases (a == b'.' && b == b'.' && c == b'/')) [
  | inl t ↦
      let (ea, (eb, ec)) = dots_of a b c t in
      let further = ap (λ r. b'.' ∷ b'.' ∷ b'/' ∷ r) (split_up-whole s) in
      rw (t, split_up, repeat_next (split_up s).0 (codes "../")) (rw (ea, eb, ec) further)
  | inr f ↦ rw (f, split_up) refl
]

up_count-up_param : (n : ℕ) → n ≤ max_up → up_count (up_param n) ≡ some n
unfolding up_count up_param
up_count-up_param n h = elim (Bool-cases (ltb 0 n)) [
  | inl t ↦
      let small : ltb max_up n ≡ false = ground arith in
      rw (t, up_count, itoa-nonempty n, atoi-itoa n (omega arith), small) refl
  | inr f ↦ let none_up : n ≡ 0 = ground arith in rw (f, up_count, none_up) refl
]

-- The tail of an address: the rest of the key, and the query that tells the number of "../".
tail_of : ℕ → Str → Str
tail_of up rest = if ltb 0 up then rest ++ (codes "?up=" ++ up_param up) else rest

slug_page_url-tail :
    (slug key : Str)
    → slug_page_url slug key
      ≡ (codes "/" ++ (slug ++ codes "/")) ++ tail_of (split_up key).0 (split_up key).1
unfolding slug_page_url tail_of
slug_page_url-tail slug key =
    let up = (split_up key).0 in
    let rest = (split_up key).1 in
    let query = codes "?up=" ++ itoa up in
    elim (Bool-cases (ltb 0 up)) [
      | inl t ↦
          rw (t, slug_page_url, tail_of)
            (ap (λ s. b'/' ∷ s)
              (append_assoc slug (b'/' ∷ rest) query
                ∙ sym (append_assoc slug (codes "/") (rest ++ query))))
      | inr f ↦
          rw (f, slug_page_url, tail_of)
            (ap (λ s. b'/' ∷ s) (sym (append_assoc slug (codes "/") rest)))
    ]

nested_key-split_up :
    (key : Str)
    → (split_up key).0 ≤ max_up
    → trim is_slash (split_up key).1 ≡ (split_up key).1
    → is_empty (split_up key).1 ≡ false
    → nested_key (split_up key).1 (up_param (split_up key).0) ≡ some key
unfolding nested_key
nested_key-split_up key few trimmed nonempty =
    rw (nested_key, up_count-up_param (split_up key).0 few)
      (rw (trimmed, nonempty) (ap (some) (split_up-whole key)))

abbrev pub is_alphanumeric : ℕ → Bool
is_alphanumeric c = is_letter c || (leb b'0' c && leb c b'9')

-- The unreserved characters of RFC 3986 and the slash.
abbrev pub is_plain : ℕ → Bool
is_plain c = is_alphanumeric c || c == b'-' || c == b'.' || c == b'_' || c == b'~' || c == b'/'

-- A path that the router of net/http takes as it stands: letters and digits for a slug that is no fixed
-- route, and behind it a clean path without a character that an address escapes.
abbrev pub IsRoutable : Str → Str → Type 0
IsRoutable slug rest =
    (slug ≢ [])
    × ((slug ≢ codes "raw")
        × (All (λ c. is_alphanumeric c ≡ true) slug
            × (All (λ c. is_plain c ≡ true) rest
                × (clean (codes "/" ++ rest) ≡ codes "/" ++ rest))))

-- `request` tells of the address of a GET request which `slug` and `path` the router finds for the
-- pattern /{slug}/{path...}, and which `up` its query has (empty without one).
module _ (request : Str → Option (Str × (Str × Str)))
    (path_only : (slug rest : Str)
      → IsRoutable slug rest
      → request ((codes "/" ++ (slug ++ codes "/")) ++ rest) ≡ some (slug, (rest, [])))
    (with_up : (slug rest : Str) (n : ℕ)
      → IsRoutable slug rest
      → request ((codes "/" ++ (slug ++ codes "/")) ++ (rest ++ (codes "?up=" ++ itoa n)))
        ≡ some (slug, (rest, itoa n))) where
  request-tail :
      (slug rest : Str) (up : ℕ)
      → IsRoutable slug rest
      → request ((codes "/" ++ (slug ++ codes "/")) ++ tail_of up rest)
        ≡ some (slug, (rest, up_param up))
  unfolding tail_of up_param
  request-tail slug rest up r = elim (Bool-cases (ltb 0 up)) [
    | inl t ↦ rw (t, tail_of, up_param) (with_up slug rest up r)
    | inr f ↦ rw (f, tail_of, up_param) (path_only slug rest r)
  ]

  -- A request for the address of a page asks for the key of the page, if the key has at most 16 leading
  -- "../", and what is behind them is not empty, has no slash at either end, is a clean path, and has no
  -- character that an address escapes; the slug has letters and digits, and is not "raw". Of net/http and
  -- net/url this takes that they find the slug, the path and the query in such an address.
  pub slug_page_url-IsAsked :
      (slug key : Str)
      → IsRoutable slug (split_up key).1
      → (split_up key).0 ≤ max_up
      → trim is_slash (split_up key).1 ≡ (split_up key).1
      → is_empty (split_up key).1 ≡ false
      → (path : Str) × ((up : Str) × ((request (slug_page_url slug key) ≡ some (slug, (path, up)))
            × (nested_key path up ≡ some key)))
  slug_page_url-IsAsked slug key routable few trimmed nonempty =
      let up = (split_up key).0 in
      let rest = (split_up key).1 in
      (
        rest,
        (
          up_param up,
          (
            ap request (slug_page_url-tail slug key) ∙ request-tail slug rest up routable,
            nested_key-split_up key few trimmed nonempty,
          ),
        ),
      )
