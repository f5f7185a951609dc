-- ===== src/Raw/Classify/Laws.antt =====
-- What a raw file may be served as inline, and what the look at its first bytes takes for binary.
use mdfly.Common.{
  ltb, ◌==◌, Bool-cases, Option-cases, length, take, All, Str, codes, str_eq, str_eq_refl,
  has_prefix, has_byte, ℕ, suc, ◌+◌, ◌≡◌, refl, sym, ap, ◌∙◌, subst, inl, inr, Bool, true, false,
  not, ◌&&◌, ◌||◌, none, some, some_inj, [], ◌∷◌, ◌++◌, arith,
}
use mdfly.Common.Dict.{Dict, lookup}
use mdfly.Common.Utf8.{valid, valid_with, lead}
use mdfly.Raw.Classify.{
  classify_raw, text_type, octet_type, inline_types, peek_bytes, pdf_ext, is_binary,
}
use mdfly.Manifest.Keys.{ext_from_path}

-- A type that a browser shows without running anything in it: text, or a picture, a film or a sound,
-- but not the pictures that may hold scripts.
abbrev pub is_passive : Str → Bool
is_passive ct =
    str_eq ct text_type
    || ((has_prefix ct (codes "image/")
          || has_prefix ct (codes "video/")
          || has_prefix ct (codes "audio/"))
        && not (str_eq ct (codes "image/svg+xml")))

AllPassive : All (λ e. is_passive e.1 ≡ true) inline_types
unfolding inline_types str_eq has_prefix
AllPassive = (refl, (refl, (refl, (refl, (refl, (refl, (refl, (refl, (refl, tt)))))))))

lookup-All :
    (P : Str → Type 0) (k : Str) (d : Dict Str) {v : Str}
    → All (λ e. P e.1) d
    → lookup k d ≡ some v
    → P v
unfolding lookup
lookup-All P k [] all e = cc
lookup-All P k ((j, w) ∷ d) {v} all e = elim (Bool-cases (str_eq j k)) [
  | inl t ↦ subst P (some_inj.0 (rw (t, lookup) at e)) all.0
  | inr f ↦ lookup-All P k d all.1 (rw (f, lookup) at e)
]

-- What is not offered for download is of a type that a browser runs nothing in.
pub classify_raw-passive :
    (key head : Str)
    → (classify_raw key head).1 ≡ false
    → is_passive (classify_raw key head).0 ≡ true
unfolding classify_raw
classify_raw-passive key head h =
    let ext = ext_from_path key in
    elim (Option-cases (lookup ext inline_types)) [
      | inr (ct, e) ↦
          rw (e, classify_raw) (lookup-All (λ v. is_passive v ≡ true) ext inline_types AllPassive e)
      | inl n ↦ elim (Bool-cases (str_eq ext pdf_ext)) [
        | inl t ↦ let no = rw (n, t, classify_raw) at h in cc
        | inr f ↦ elim (Bool-cases (is_binary head)) [
          | inl t ↦ let no = rw (n, f, t, classify_raw) at h in cc
          | inr g ↦ rw (n, f, g, classify_raw, str_eq_refl text_type) refl
        ]
      ]
    ]

abbrev pub is_ascii : ℕ → Bool
is_ascii c = ltb 0 c && ltb c 128

valid-ascii : (c : ℕ) (s : Str) → is_ascii c ≡ true → valid_with 0 0 0 (c ∷ s) ≡ valid_with 0 0 0 s
unfolding valid_with lead
valid-ascii c s h = let small : ltb c 128 ≡ true = ground arith in rw (small, valid_with) refl

ascii_nonzero : (c : ℕ) → is_ascii c ≡ true → (c == 0) ≡ false
ascii_nonzero c h = ground arith

is_binary-ascii :
    (pre s : Str) → All (λ c. is_ascii c ≡ true) pre → is_binary (pre ++ s) ≡ is_binary s
unfolding is_binary valid has_byte
is_binary-ascii [] s all = refl
is_binary-ascii (c ∷ pre) s all =
    let rest = is_binary-ascii pre s all.1 in
    let step = valid-ascii c (pre ++ s) all.0 in
    let nonzero = ascii_nonzero c all.0 in rw (step, nonzero) rest

take-append_len : (pre s : Str) (n : ℕ) → take (length pre + n) (pre ++ s) ≡ pre ++ take n s
take-append_len [] s n = let same : 0 + n ≡ n = omega arith in rw same refl
take-append_len (c ∷ pre) s n =
    let next : length (c ∷ pre) + n ≡ suc (length pre + n) = omega arith in
    rw next (ap (λ l. c ∷ l) (take-append_len pre s n))

valid_with_none_due : (lo hi : ℕ) (s : Str) → valid_with 0 lo hi s ≡ valid_with 0 0 0 s
unfolding valid_with
valid_with_none_due lo hi [] = refl
valid_with_none_due lo hi (c ∷ s) = refl

two_byte_character : (s : Str) → is_binary (195 ∷ 169 ∷ s) ≡ is_binary s
unfolding is_binary valid valid_with lead has_byte
two_byte_character s = rw (valid_with_none_due 128 191 s) refl

half_character : is_binary (195 ∷ []) ≡ true
unfolding is_binary valid valid_with lead has_byte
half_character = refl

-- 511 ASCII bytes that are not zero, the two bytes of "é" and text behind them are text, and are
-- offered for download as bytes if the extension of the key is no listed one: the look at the first
-- 512 bytes ends within the character.
pub text_cut_in_character :
    (key pre rest : Str)
    → lookup (ext_from_path key) inline_types ≡ none
    → str_eq (ext_from_path key) pdf_ext ≡ false
    → All (λ c. is_ascii c ≡ true) pre
    → length pre ≡ 511
    → is_binary rest ≡ false
    → (is_binary (pre ++ (195 ∷ 169 ∷ rest)) ≡ false)
      × (classify_raw key (take peek_bytes (pre ++ (195 ∷ 169 ∷ rest))) ≡ (octet_type, true))
unfolding classify_raw
text_cut_in_character key pre rest unlisted no_pdf all len plain =
    let content = pre ++ (195 ∷ 169 ∷ rest) in
    let long : length pre + 1 ≡ peek_bytes = omega arith in
    let head : take peek_bytes content ≡ pre ++ (195 ∷ []) =
      subst (λ n. take n content ≡ pre ++ (195 ∷ [])) long
        (take-append_len pre (195 ∷ 169 ∷ rest) 1) in
    let cut_off = is_binary-ascii pre (195 ∷ []) all ∙ half_character in
    (
      is_binary-ascii pre (195 ∷ 169 ∷ rest) all ∙ two_byte_character rest ∙ plain,
      subst (λ s. classify_raw key s ≡ (octet_type, true)) (sym head)
          (rw (unlisted, no_pdf, cut_off, classify_raw) refl),
    )
