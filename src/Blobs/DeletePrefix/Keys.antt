-- ===== src/Blobs/DeletePrefix/Keys.antt =====
-- Lists of keys: what a deletion leaves, and how many of a prefix are left.
use mdfly.Common.{
  Bool-cases, length, filter, Str, str_eq, str_eq_iff, str_eq_refl, has_prefix, ℕ, ◌≤◌, ◌<◌, ◌≡◌,
  refl, sym, ap, ◌≢◌, inl, inr, Bool, true, false, not, ◌&&◌, List, [], ◌∷◌, arith,
}
use mdfly.Common.Members.{among}
use mdfly.Jobs.Runner.{after}

abbrev pub without : List Str → List Str → List Str
without ids ks = filter (λ k. not (among ids k)) ks

-- The keys of `after` are those of `before` without the prefix.
abbrev pub IsRemoved : Str → List Str → List Str → Type 0
IsRemoved prefix before after =
    (k : Str) → among after k ≡ (among before k && not (has_prefix k prefix))

abbrev pub under : Str → List Str → ℕ
under prefix ks = length (filter (λ k. has_prefix k prefix) ks)

module _ (p : Str → Bool) where
  pub among-filter : (ks : List Str) (k : Str) → among (filter p ks) k ≡ (among ks k && p k)
  among-filter [] k = refl
  among-filter (j ∷ ks) k = elim (Bool-cases (str_eq k j)) [
    | inl t ↦
        let same : p j ≡ p k = ap p (sym ((str_eq_iff k j).0 t)) in
        ground (arith, among-filter ks k)
    | inr f ↦ ground (arith, among-filter ks k)
  ]

  under-filter-le : (prefix : Str) (ks : List Str) → under prefix (filter p ks) ≤ under prefix ks
  under-filter-le prefix [] = omega arith
  under-filter-le prefix (j ∷ ks) = ground (arith, under-filter-le prefix ks)

  -- One key of the prefix is left out at least.
  pub under-filter-lt :
      (prefix : Str) (ks : List Str) (k : Str)
      → among ks k ≡ true
      → has_prefix k prefix ≡ true
      → p k ≡ false
      → under prefix (filter p ks) < under prefix ks
  under-filter-lt prefix [] k m h out = cc
  under-filter-lt prefix (j ∷ ks) k m h out = elim (Bool-cases (str_eq k j)) [
    | inl t ↦
        let same : p j ≡ p k = ap p (sym ((str_eq_iff k j).0 t)) in
        let same_prefix : has_prefix j prefix ≡ has_prefix k prefix =
          ap (λ x. has_prefix x prefix) (sym ((str_eq_iff k j).0 t)) in
        ground (arith, under-filter-le prefix ks)
    | inr f ↦ let ih = under-filter-lt prefix ks k (rw f at m) h out in ground (arith, ih)
  ]

pub no_less : (n : ℕ) → n < 0 → ⊥
no_less n h = omega arith

pub some_member : (ids : List Str) → ids ≢ [] → (k : Str) × (among ids k ≡ true)
some_member [] h = elim (h refl) [ ]
some_member (k ∷ ids) h = (k, ground (arith, str_eq_refl k))

pub without-nothing : (ks : List Str) → without [] ks ≡ ks
without-nothing [] = refl
without-nothing (k ∷ ks) = ap (λ l. k ∷ l) (without-nothing ks)

-- Without what is in `c`, or without what is in `p`: the same, if `c` is `p` within `a`.
pub same_rest :
    (a c p : Bool)
    → (c ≡ true → p ≡ true)
    → (a ≡ true → p ≡ true → c ≡ true)
    → (a && not c) ≡ (a && not p)
same_rest a c p f g = ground arith

pub and_twice : (a c p : Bool) → (c ≡ true → p ≡ true) → ((a && not c) && not p) ≡ (a && not p)
and_twice a c p f = ground arith

pub and_not : (a c : Bool) → (a && not c) ≡ true → (a ≡ true) × (c ≡ false)
and_not a c h = ground arith
