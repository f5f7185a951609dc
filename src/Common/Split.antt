-- ===== src/Common/Split.antt =====
-- Go's string order, and strings cut at a byte: `strings.Cut`, `strings.Split` and `strings.Join`.
use Prim.Native.Nat.{ℕ}
use mathlib.Core.Path.{◌≡◌, refl, sym, ap, ◌∙◌}
use mathlib.Core.Logic.{◌≢◌}
use mathlib.Core.Bool.{Bool, true, false, ◌&&◌, ◌||◌}
use mathlib.Core.List.{List, [], ◌∷◌, ◌++◌, append_assoc}
use mathlib.Core.Option.{Option, none, some}
use native.Mathlib.Omega.{arith}
use mdfly.Common.Bools.{ltb, ◌==◌, if◌then◌else◌}
use mdfly.Common.Bytes.{Str, has_byte}

unfoldable pub str_lt : Str → Str → Bool
str_lt _ [] = false
str_lt [] (y ∷ ys) = true
str_lt (x ∷ xs) (y ∷ ys) = ltb x y || (x == y && str_lt xs ys)

pub str_lt_irrefl : (s : Str) → str_lt s s ≡ false
unfolding str_lt
str_lt_irrefl [] = refl
str_lt_irrefl (x ∷ s) = ground (arith, str_lt_irrefl s)

pub str_lt_trans : (a b c : Str) → str_lt a b ≡ true → str_lt b c ≡ true → str_lt a c ≡ true
unfolding str_lt
str_lt_trans a b [] h k = cc
str_lt_trans a [] (z ∷ c) h k = cc
str_lt_trans [] (y ∷ b) (z ∷ c) h k = refl
str_lt_trans (x ∷ a) (y ∷ b) (z ∷ c) h k = ground (arith, str_lt_trans a b c)

pub str_lt_asym : (a b : Str) → str_lt a b ≡ true → str_lt b a ≡ false
unfolding str_lt
str_lt_asym a [] h = cc
str_lt_asym [] (y ∷ b) h = refl
str_lt_asym (x ∷ a) (y ∷ b) h = ground (arith, str_lt_asym a b)

pub str_ge_trans : (a b c : Str) → str_lt a b ≡ false → str_lt b c ≡ false → str_lt a c ≡ false
unfolding str_lt
str_ge_trans a b [] h k = refl
str_ge_trans a [] (z ∷ c) h k = cc
str_ge_trans [] (y ∷ b) (z ∷ c) h k = cc
str_ge_trans (x ∷ a) (y ∷ b) (z ∷ c) h k = ground (arith, str_ge_trans a b c)

pub str_lt_total : (a b : Str) → str_lt a b ≡ false → str_lt b a ≡ false → a ≡ b
unfolding str_lt
str_lt_total [] [] h k = refl
str_lt_total [] (y ∷ b) h k = cc
str_lt_total (x ∷ a) [] h k = cc
str_lt_total (x ∷ a) (y ∷ b) h k = ground (arith, str_lt_total a b)

-- The part before the first `c`, and the part behind it where there is one.
unfoldable pub cut : ℕ → Str → Str × Option Str
cut c [] = ([], none)
cut c (x ∷ s) = let rest = cut c s in if x == c then ([], some s) else (x ∷ rest.0, rest.1)

pub cut-free : (c : ℕ) (s : Str) → has_byte c (cut c s).0 ≡ false
unfolding cut has_byte
cut-free c [] = refl
cut-free c (x ∷ s) = ground (arith, cut-free c s)

pub cut-whole : (c : ℕ) (s : Str) → (cut c s).1 ≡ none → (cut c s).0 ≡ s
unfolding cut
cut-whole c [] h = refl
cut-whole c (x ∷ s) h = ground (arith, cut-whole c s)

pub cut-append :
    (c : ℕ) (s : Str) {rest : Str} → (cut c s).1 ≡ some rest → s ≡ (cut c s).0 ++ (c ∷ rest)
unfolding cut
cut-append c [] h = cc
cut-append c (x ∷ s) {rest} h = ground (arith, cut-append c s {rest = rest})

pub cut-at :
    (c : ℕ) (s rest : Str) → has_byte c s ≡ false → cut c (s ++ (c ∷ rest)) ≡ (s, some rest)
unfolding cut has_byte
cut-at c [] rest h = ground arith
cut-at c (x ∷ s) rest h = ground (arith, cut-at c s rest)

pub cut-none : (c : ℕ) (s : Str) → has_byte c s ≡ false → cut c s ≡ (s, none)
unfolding cut has_byte
cut-none c [] h = refl
cut-none c (x ∷ s) h = ground (arith, cut-none c s)

unfoldable pub on_first : ℕ → List Str → List Str
on_first x [] = []
on_first x (a ∷ l) = (x ∷ a) ∷ l

-- `strings.Split` at one byte: never the empty list.
unfoldable pub split : ℕ → Str → List Str
unfolding on_first
split c [] = [] ∷ []
split c (x ∷ s) = let rest = split c s in if x == c then [] ∷ rest else on_first x rest

unfoldable pub join : ℕ → List Str → Str
join c [] = []
join c (a ∷ []) = a
join c (a ∷ b ∷ l) = a ++ (c ∷ join c (b ∷ l))

pub split-nonempty : (c : ℕ) (s : Str) → split c s ≢ []
unfolding split on_first
split-nonempty c [] h = cc
split-nonempty c (x ∷ s) h = ground (arith, split-nonempty c s)

join-on_first : (c x : ℕ) (l : List Str) → l ≢ [] → join c (on_first x l) ≡ x ∷ join c l
unfolding join on_first
join-on_first c x [] h = elim (h refl) [ ]
join-on_first c x (a ∷ []) h = refl
join-on_first c x (a ∷ b ∷ l) h = refl

join-nil : (c : ℕ) (l : List Str) → l ≢ [] → join c ([] ∷ l) ≡ c ∷ join c l
unfolding join
join-nil c [] h = elim (h refl) [ ]
join-nil c (a ∷ l) h = refl

pub join-split : (c : ℕ) (s : Str) → join c (split c s) ≡ s
unfolding split join
join-split c [] = refl
join-split c (x ∷ s) = ground (
  arith,
  join-split c s,
  split-nonempty c s,
  join-on_first c x (split c s),
  join-nil c (split c s),
)

pub join-prefix :
    (c : ℕ) (pre : List Str) (seg next : Str) (rest : List Str)
    → join c (pre ++ (seg ∷ next ∷ rest)) ≡ join c (pre ++ (seg ∷ [])) ++ (c ∷ join c (next ∷ rest))
unfolding join
join-prefix c [] seg next rest = refl
join-prefix c (x ∷ []) seg next rest = sym (append_assoc x (c ∷ seg) (c ∷ join c (next ∷ rest)))
join-prefix c (x ∷ y ∷ pre) seg next rest =
    ap (λ s. x ++ (c ∷ s)) (join-prefix c (y ∷ pre) seg next rest)
    ∙ sym (append_assoc x (c ∷ join c (y ∷ (pre ++ (seg ∷ [])))) (c ∷ join c (next ∷ rest)))
