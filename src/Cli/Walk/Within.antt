-- ===== src/Cli/Walk/Within.antt =====
-- What stays inside of the project root.
use mdfly.Common.{
  Bool-cases, Option-cases, Str, codes, str_eq, str_eq_iff, has_prefix, has_prefix-append, ◌≡◌,
  refl, sym, ap, ◌∙◌, subst, inl, inr, Bool, true, false, ◌||◌, Option, none, some, List, [], ◌∷◌,
  ◌++◌, map, arith,
}
use mathlib.Core.Option.{some-injective}
use mathlib.Core.List.{append-nil}
use mdfly.Common.Split.{join}
use mdfly.Common.Paths.{clean, is_abs, rel, elements, rel_elements}
use mdfly.Cli.Walk.{escapes_root}

-- The elements of the cleaned path start with those of the cleaned root.
abbrev pub IsUnder : Str → Str → Type 0
IsUnder root path = (rest : List Str) × (elements (clean path) ≡ elements (clean root) ++ rest)

starts_up : List Str → Bool
unfolding str_eq
starts_up [] = false
starts_up (x ∷ xs) = str_eq x (codes "..")

up_not : (es : List Str) → starts_up (codes ".." ∷ es) ≡ false → ⊥
unfolding starts_up str_eq
up_not es h = cc

-- The way from a base that does not start with what the base has starts upwards.
rel_elements-under :
    (bs ts : List Str) {es : List Str}
    → rel_elements bs ts ≡ some es
    → starts_up es ≡ false
    → ts ≡ bs ++ es
unfolding rel_elements
rel_elements-under [] ts {es} e f = some-injective ts es e
rel_elements-under (b ∷ bs) [] {es} e f =
    let same = some-injective (map (λ b. codes "..") (b ∷ bs)) es e in
    let bad = subst (λ x. starts_up x ≡ false) (sym same) f in
    absurd (up_not (map (λ b. codes "..") bs) bad)
rel_elements-under (b ∷ bs) (t ∷ ts) {es} e f = elim (Bool-cases (str_eq b t)) [
  | inl s ↦
      let ih = rel_elements-under bs ts {es = es} (rw s at e) f in
      let same = (str_eq_iff b t).0 s in ap (λ l. t ∷ l) ih ∙ ap (λ x. x ∷ (bs ++ es)) (sym same)
  | inr n ↦ elim (Bool-cases (str_eq b (codes ".."))) [
    | inl u ↦ let no = rw (n, u) at e in cc
    | inr u ↦
        let same =
          some-injective (map (λ b. codes "..") (b ∷ bs) ++ (t ∷ ts)) es (rw (n, u) at e) in
        absurd (
          up_not (map (λ b. codes "..") bs ++ (t ∷ ts))
            (subst (λ x. starts_up x ≡ false) (sym same) f))
  ]
]

starts_up-escapes :
    (es : List Str)
    → (str_eq (join b'/' es) (codes "..") || has_prefix (join b'/' es) (codes "../")) ≡ false
    → starts_up es ≡ false
unfolding starts_up join
starts_up-escapes [] h = refl
starts_up-escapes (x ∷ []) h = ground arith
starts_up-escapes (x ∷ y ∷ es) h = elim (Bool-cases (str_eq x (codes ".."))) [
  | inr n ↦ n
  | inl t ↦
      let same = (str_eq_iff x (codes "..")).0 t in
      let up = has_prefix-append (codes "../") (join b'/' (y ∷ es)) in
      let h' =
        subst
          (λ z.
            (str_eq (z ++ (b'/' ∷ join b'/' (y ∷ es))) (codes "..")
              || has_prefix (z ++ (b'/' ∷ join b'/' (y ∷ es))) (codes "../"))
            ≡ false)
          same h in
      ground arith
]

pub clean-is_abs : (p : Str) → is_abs p ≡ true → is_abs (clean p) ≡ true
unfolding clean is_abs
clean-is_abs p h = rw (h, clean) refl

abs-not_dot : (p : Str) → is_abs p ≡ true → str_eq p (codes ".") ≡ false
unfolding is_abs str_eq
abs-not_dot [] h = refl
abs-not_dot (c ∷ s) h = ground arith

way_down : Option (List Str) → Option Str
way_down none = none
way_down (some es) = some (join b'/' es)

-- From an absolute root to an absolute path.
rel-abs :
    (root path : Str)
    → is_abs root ≡ true
    → is_abs path ≡ true
    → str_eq (clean root) (clean path) ≡ false
    → rel root path ≡ way_down (rel_elements (elements (clean root)) (elements (clean path)))
unfolding rel way_down
rel-abs root path a b n =
    let a' = clean-is_abs root a in
    let b' = clean-is_abs path b in let d = abs-not_dot (clean root) a' in rw (n, d, a', b') refl

judged : Option Str → Bool
unfolding str_eq has_prefix
judged none = true
judged (some r) = str_eq r (codes "..") || has_prefix r (codes "../")

escapes_root-judged : (root path : Str) → escapes_root root path ≡ judged (rel root path)
unfolding escapes_root judged
escapes_root-judged root path = ground arith

-- A path that does not escape an absolute root is under it.
pub escapes_root-IsUnder :
    (root path : Str)
    → is_abs root ≡ true
    → is_abs path ≡ true
    → escapes_root root path ≡ false
    → IsUnder root path
unfolding judged way_down
escapes_root-IsUnder root path a b h = elim (Bool-cases (str_eq (clean root) (clean path))) [
  | inl t ↦
      let same = (str_eq_iff (clean root) (clean path)).0 t in
      ([], ap elements (sym same) ∙ sym (append-nil (elements (clean root))))
  | inr n ↦ elim (Option-cases (rel_elements (elements (clean root)) (elements (clean path)))) [
    | inl e ↦
        let no =
          sym h
          ∙ escapes_root-judged root path
          ∙ ap judged (rel-abs root path a b n ∙ ap way_down e) in
        cc
    | inr (es, e) ↦
        let out =
          sym (escapes_root-judged root path ∙ ap judged (rel-abs root path a b n ∙ ap way_down e))
          ∙ h in
        (
          es,
          rel_elements-under (elements (clean root)) (elements (clean path)) {es = es} e
              (starts_up-escapes es out),
        )
  ]
]
