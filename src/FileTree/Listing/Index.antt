-- ===== src/FileTree/Listing/Index.antt =====
-- The document that the page of a folder shows below its listing.
use mdfly.Common.{
  Option-cases, find, Str, codes, str_eq_iff, str_eq_refl, cut_prefix, cut_prefix-eq, has_byte,
  to_lower, ◌≡◌, subst, ◌⊎◌, inl, inr, Bool, true, false, none, some, some_inj, List, [], ◌∷◌, ◌++◌,
  arith,
}
use mdfly.FileTree.Listing.{is_index, index_among, index_file, scope_of}
use mdfly.FileTree.Classify.Laws.{is_listed}
use mdfly.Common.Lookup.{find-holds}

-- A key with a single name in the folder, which is `want` but for the case of its letters.
abbrev IsNamed : Str → Str → Str → Type 0
IsNamed scope want key =
    (rest : Str) × ((key ≡ scope ++ rest) × ((has_byte b'/' rest ≡ false) × (to_lower rest ≡ want)))

is_index-IsNamed : (scope want key : Str) → is_index scope want key ≡ true → IsNamed scope want key
unfolding is_index
is_index-IsNamed scope want key h = elim (Option-cases (cut_prefix key scope)) [
  | inl n ↦ let no = rw (n, is_index) at h in cc
  | inr (rest, c) ↦
      let tests = rw (c, is_index) at h in
      (
        rest,
        (
          cut_prefix-eq key scope c,
          (ground arith, ground (arith, str_eq_iff (to_lower rest) want)),
        ),
      )
]

listed_of_find :
    (p : Str → Bool) (ks : List Str) {k : Str} → find p ks ≡ some k → is_listed ks k ≡ true
listed_of_find p [] h = cc
listed_of_find p (j ∷ ks) {k} h = ground (arith, str_eq_refl k, listed_of_find p ks {k = k})

-- The index document of a folder is a key that has a single name in the folder: "readme.md" but for
-- the case of its letters, or "index.md" where no key is named "readme.md".
index_file-IsNamed :
    (ks : List Str) (prefix : Str) {key : Str}
    → index_file ks prefix ≡ some key
    → (is_listed ks key ≡ true)
      × (IsNamed (scope_of prefix) (codes "readme.md") key
          ⊎ (IsNamed (scope_of prefix) (codes "index.md") key
              × (find (is_index (scope_of prefix) (codes "readme.md")) ks ≡ none)))
unfolding index_file index_among
index_file-IsNamed ks prefix {key} h =
    let scope = scope_of prefix in
    let readme = is_index scope (codes "readme.md") in
    let index = is_index scope (codes "index.md") in
    elim (Option-cases (find readme ks)) [
      | inr (k, e) ↦
          let same = some_inj.0 (rw (e, index_file, index_among) at h) in
          subst
            (λ k.
              (is_listed ks k ≡ true)
              × (IsNamed scope (codes "readme.md") k
                  ⊎ (IsNamed scope (codes "index.md") k × (find readme ks ≡ none))))
            same
            (
              listed_of_find readme ks e,
              inl (is_index-IsNamed scope (codes "readme.md") k (find-holds readme ks e)),
            )
      | inl n ↦ elim (Option-cases (find index ks)) [
        | inl m ↦ let no = rw (n, m, index_file, index_among) at h in cc
        | inr (k, e) ↦
            let same = some_inj.0 (rw (n, e, index_file, index_among) at h) in
            subst
              (λ k.
                (is_listed ks k ≡ true)
                × (IsNamed scope (codes "readme.md") k
                    ⊎ (IsNamed scope (codes "index.md") k × (find readme ks ≡ none))))
              same
              (
                listed_of_find index ks e,
                inr (is_index-IsNamed scope (codes "index.md") k (find-holds index ks e), n),
              )
      ]
    ]
