-- ===== src/Slug/Laws.antt =====
-- What a generated slug looks like.
use mdfly.Slug.{
  letter, push, generate_from, generate_slug_from, generate, slug_retries, generate_slug,
}
use mathlib.Core.Path.{subst}
use mathlib.Core.Option.{some-injective}
use mdfly.Common.{
  ◌==◌, Bool-cases, Option-cases, length, any, All, Str, ℕ, zero, suc, ◌+◌, ◌≡◌, refl, sym, ap, ◌∙◌,
  inl, inr, true, false, Option, none, some, [], ◌∷◌, arith,
}
use mdfly.Slug.{alphabet, slug_len, is_reserved, nth, generate}

abbrev pub InAlphabet : ℕ → Type 0
InAlphabet c = any (λ a. a == c) alphabet ≡ true

==_refl : (a : ℕ) → (a == a) ≡ true
==_refl a = ground arith

nth-any : (xs : Str) (n : ℕ) {c : ℕ} → nth xs n ≡ some c → any (λ a. a == c) xs ≡ true
nth-any [] n e = cc
nth-any (x ∷ xs) zero {c} e = ground (arith, ==_refl c)
nth-any (x ∷ xs) (suc n) {c} e = ground (arith, nth-any xs n {c = c})

letter-InAlphabet : (o : Option ℕ) {c : ℕ} → letter o ≡ some c → InAlphabet c
unfolding letter
letter-InAlphabet none e = cc
letter-InAlphabet (some n) {c} e = nth-any alphabet n e

push-some :
    (c : Option ℕ) (s : Option Str) {t : Str}
    → push c s ≡ some t
    → (x : ℕ) × (u : Str) × (c ≡ some x) × (s ≡ some u) × (t ≡ x ∷ u)
unfolding push
push-some none s e = cc
push-some (some c) none e = cc
push-some (some c) (some s) {t} e = (c, s, refl, refl, ground arith)

generate_from-some :
    (rand : ℕ → Option ℕ) (k n : ℕ) {s : Str}
    → generate_from rand k n ≡ some s
    → (length s ≡ n) × All InAlphabet s
unfolding generate_from
generate_from-some rand k zero {s} e =
    subst (λ t. (length t ≡ 0) × All InAlphabet t) (some-injective [] s e) (refl, tt)
generate_from-some rand k (suc n) {s} e =
    let (x, u, ex, eu, es) = push-some (letter (rand k)) (generate_from rand (k + 1) n) e in
    let (l, a) = generate_from-some rand (k + 1) n eu in
    rw es (ap suc l, (letter-InAlphabet (rand k) ex, a))

-- A slug that is fit to be handed out: not reserved, eight characters, all of the alphabet.
abbrev pub IsFit : Str → Type 0
IsFit s = (is_reserved s ≡ false) × (length s ≡ slug_len) × All InAlphabet s

generate-some :
    (rand : ℕ → Option ℕ) (k : ℕ) {s : Str}
    → generate rand k ≡ some s
    → (length s ≡ slug_len) × All InAlphabet s
unfolding generate
generate-some rand k e = generate_from-some rand k slug_len e

try_reserved :
    (rand : ℕ → Option ℕ) (k tries : ℕ) (t : Str)
    → generate rand k ≡ some t
    → is_reserved t ≡ true
    → generate_slug_from rand k (suc tries) ≡ generate_slug_from rand (k + slug_len) tries
unfolding generate_slug_from
try_reserved rand k tries t h r = ground arith

try_fit :
    (rand : ℕ → Option ℕ) (k tries : ℕ) (t : Str)
    → generate rand k ≡ some t
    → is_reserved t ≡ false
    → generate_slug_from rand k (suc tries) ≡ some t
unfolding generate_slug_from
try_fit rand k tries t h r = ground arith

try_failed :
    (rand : ℕ → Option ℕ) (k tries : ℕ)
    → generate rand k ≡ none
    → generate_slug_from rand k (suc tries) ≡ none
unfolding generate_slug_from
try_failed rand k tries h = ground arith

try_none : (rand : ℕ → Option ℕ) (k : ℕ) → generate_slug_from rand k 0 ≡ none
unfolding generate_slug_from
try_none rand k = refl

generate_slug_from-IsFit :
    (rand : ℕ → Option ℕ) (k tries : ℕ) {s : Str}
    → generate_slug_from rand k tries ≡ some s
    → IsFit s
generate_slug_from-IsFit rand k zero e = cc (try_none rand k)
generate_slug_from-IsFit rand k (suc tries) {s} e = elim (Option-cases (generate rand k)) [
  | inl n ↦ cc (try_failed rand k tries n)
  | inr (t, h) ↦ elim (Bool-cases (is_reserved t)) [
    | inl r ↦
        generate_slug_from-IsFit rand (k + slug_len) tries
          (sym (try_reserved rand k tries t h r) ∙ e)
    | inr f ↦
        let (l, a) = generate-some rand k h in
        subst IsFit (some-injective t s (sym (try_fit rand k tries t h f) ∙ e)) (f, l, a)
  ]
]

-- Whatever the random source answers, a generated slug is not a reserved word and has eight
-- characters, all of them of the alphabet of digits and letters.
pub generate_slug-IsFit : (rand : ℕ → Option ℕ) {s : Str} → generate_slug rand ≡ some s → IsFit s
unfolding generate_slug
generate_slug-IsFit rand e = generate_slug_from-IsFit rand 0 slug_retries e
