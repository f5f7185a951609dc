-- ===== src/FileTree/Crumbs/Laws.antt =====
-- Where the crumbs of a page lead.
use mathlib.Core.List.{append_assoc}
use mdfly.Common.{
  Bool-cases, length, take, All, Str, codes, is_empty, has_prefix, has_prefix-append, trim,
  is_slash, suc, ◌+◌, ◌≡◌, refl, sym, ap, ◌∙◌, subst, ◌⊎◌, inl, inr, true, false, List, [], ◌∷◌,
  ◌++◌, arith,
}
use mdfly.Common.Split.{split, join, join-split, join-prefix}
use mdfly.FileTree.Crumbs.{Crumb, breadcrumb, crumbs_from, home}

take-append :
    (pre : List Str) (seg : Str) (rest : List Str)
    → take (suc (length pre)) (pre ++ (seg ∷ rest)) ≡ pre ++ (seg ∷ [])
take-append [] seg rest = refl
take-append (x ∷ pre) seg rest = ap (λ l. x ∷ l) (take-append pre seg rest)

length-append :
    (pre : List Str) (seg : Str) (rest : List Str)
    → length (pre ++ (seg ∷ rest)) ≡ length pre + 1 + length rest
length-append [] seg rest = ground arith
length-append (x ∷ pre) seg rest = ground (arith, length-append pre seg rest)

-- The last crumb is the page itself, any other a folder above it.
abbrev pub LeadsTo : Str → Crumb → Type 0
LeadsTo key c =
    ((c.is_current ≡ true) × (c.path ≡ key))
    ⊎ ((c.is_current ≡ false) × (has_prefix key (c.path ++ codes "/") ≡ true))

module _ (segs : List Str) where
  path_at :
      (pre : List Str) (seg : Str) (rest : List Str)
      → segs ≡ pre ++ (seg ∷ rest)
      → join b'/' (take (length pre + 1) segs) ≡ join b'/' (pre ++ (seg ∷ []))
  path_at pre seg rest at =
      let next : length pre + 1 ≡ suc (length pre) = omega arith in
      rw (at, next) (ap (join b'/') (take-append pre seg rest))

  prefix_at :
      (pre : List Str) (seg next : Str) (rest : List Str)
      → segs ≡ pre ++ (seg ∷ next ∷ rest)
      → has_prefix (join b'/' segs) (join b'/' (take (length pre + 1) segs) ++ codes "/") ≡ true
  prefix_at pre seg next rest at =
      let path = join b'/' (pre ++ (seg ∷ [])) in
      let behind = join b'/' (next ∷ rest) in
      let whole =
        append_assoc path (codes "/") behind
        ∙ sym (join-prefix b'/' pre seg next rest)
        ∙ sym (ap (join b'/') at) in
      subst (λ p. has_prefix (join b'/' segs) (p ++ codes "/") ≡ true)
        (sym (path_at pre seg (next ∷ rest) at))
        (subst (λ k. has_prefix k (path ++ codes "/") ≡ true) whole
          (has_prefix-append (path ++ codes "/") behind))

  crumbs_from-LeadsTo :
      (pre rest : List Str)
      → segs ≡ pre ++ rest
      → All (LeadsTo (join b'/' segs)) (crumbs_from segs (length pre) rest)
  unfolding crumbs_from
  crumbs_from-LeadsTo pre [] at = tt
  crumbs_from-LeadsTo pre (seg ∷ []) at = (
    inl (
      ground (arith, ap length at, length-append pre seg []),
      path_at pre seg [] at ∙ sym (ap (join b'/') at),
    ),
    tt,
  )
  crumbs_from-LeadsTo pre (seg ∷ next ∷ rest) at =
      let longer : length (pre ++ (seg ∷ [])) ≡ length pre + 1 =
        omega (arith, length-append pre seg []) in
      let behind =
        crumbs_from-LeadsTo (pre ++ (seg ∷ [])) (next ∷ rest)
          (at ∙ sym (append_assoc pre (seg ∷ []) (next ∷ rest))) in
      (
        inr (
          ground (arith, ap length at, length-append pre seg (next ∷ rest)),
          prefix_at pre seg next rest at,
        ),
        subst (λ i. All (LeadsTo (join b'/' segs)) (crumbs_from segs i (next ∷ rest))) longer
            behind,
      )

-- Behind the home crumb, which leads to the root, the last crumb of a page has the page's own path,
-- and every other has the path of a folder that the page lies in.
pub breadcrumb-LeadsTo :
    (key : Str)
    → (tail : List Crumb) × ((breadcrumb key ≡ home (is_empty (trim is_slash key)) ∷ tail)
        × All (LeadsTo (trim is_slash key)) tail)
unfolding breadcrumb
breadcrumb-LeadsTo key =
    let k = trim is_slash key in
    let segs = split b'/' k in
    elim (Bool-cases (is_empty k)) [
      | inl t ↦ ([], (rw (t, breadcrumb) refl, tt))
      | inr f ↦ (
        crumbs_from segs 0 segs,
        (
          rw (f, breadcrumb) refl,
          subst (λ s. All (LeadsTo s) (crumbs_from segs 0 segs)) (join-split b'/' k)
              (crumbs_from-LeadsTo segs [] segs refl),
        ),
      )
    ]
