-- ===== src/FileTree/Listing/Laws.antt =====
-- What the listing of a folder shows of the keys, and in which order.
use mdfly.Common.{
  if◌then◌else◌, Bool-cases, Option-cases, any, All, All-imp, All-append, Str, codes, str_eq,
  str_eq_refl, cut_prefix, has_prefix, has_prefix-append, cut_prefix-eq, has_byte, ℤ, ◌≡◌, refl,
  sym, ap, ◌∙◌, subst, inl, inr, Bool, true, false, some, some_inj, List, [], ◌∷◌, ◌++◌, arith,
}
use mathlib.Core.List.{append_assoc}
use mdfly.Common.Dict.{Dict}
use mdfly.Common.Sort.{All-sort_stable}
use mdfly.FileTree.Listing.{
  Entry, entry_of, collect, list_dir, entry_behind, scope_of, entry_less, sort_entries,
}
use mdfly.Common.Split.{cut, cut-free, cut-whole, cut-append}

-- The entry that shows a key: the key's own, or that of a folder that it lies in.
abbrev pub shows : Str → Entry → Bool
shows key e = if e.is_dir then has_prefix key (e.path ++ codes "/") else str_eq key e.path

-- An entry with a single name in the folder with the prefix `scope`, which shows a key.
abbrev IsShown : Str → Str → Entry → Type 0
IsShown scope key e =
    (has_byte b'/' e.name ≡ false) × ((e.path ≡ scope ++ e.name) × (shows key e ≡ true))

-- An entry with a single name in the folder with the prefix `scope`, which shows one of the keys.
abbrev pub IsChild : Str → Dict ℤ → Entry → Type 0
IsChild scope files e =
    (has_byte b'/' e.name ≡ false)
    × ((e.path ≡ scope ++ e.name) × (any (λ f. shows f.0 e) files ≡ true))

module _ (scope key : Str) (size : ℤ) where
  entry_behind-shows :
      (rest : Str)
      → key ≡ scope ++ rest
      → (has_byte b'/' (entry_behind scope key size rest).name ≡ false)
        × (((entry_behind scope key size rest).path
              ≡ scope ++ (entry_behind scope key size rest).name)
            × (shows key (entry_behind scope key size rest) ≡ true))
  unfolding entry_behind
  entry_behind-shows rest h =
      let name = (cut b'/' rest).0 in
      let slash = codes "/" in
      elim (Option-cases (cut b'/' rest).1) [
        | inl n ↦
            let whole = cut-whole b'/' rest n in
            let free = cut-free b'/' rest in
            rw (n, entry_behind) (rw whole at free, (h, str_eq_refl key))
        | inr (r, d) ↦
            let whole =
              append_assoc (scope ++ name) slash r
              ∙ append_assoc scope name (slash ++ r)
              ∙ ap (λ s. scope ++ s) (sym (cut-append b'/' rest d))
              ∙ sym h in
            let under = has_prefix-append (scope ++ name ++ slash) r in
            rw (d, entry_behind) (cut-free b'/' rest, (refl, rw whole at under))
      ]

  pub entry_of-shows : {e : Entry} → entry_of scope key size ≡ some e → IsShown scope key e
  unfolding entry_of
  entry_of-shows {e} h = elim (Option-cases (cut_prefix key scope)) [
    | inl n ↦ let q = rw (n, entry_of) at h in cc
    | inr ([], c) ↦ let q = rw (c, entry_of) at h in cc
    | inr (x ∷ s, c) ↦
        let q = rw (c, entry_of) at h in
        subst (IsShown scope key) (some_inj.0 q)
          (entry_behind-shows (x ∷ s) (cut_prefix-eq key scope c))
  ]

module _ (scope : Str) where
  IsChild-later :
      (f : Str × ℤ) (files : Dict ℤ) (e : Entry)
      → IsChild scope files e
      → IsChild scope (f ∷ files) e
  IsChild-later f files e (free, (at, shown)) = (free, (at, ground arith))

  IsChild-here :
      (key : Str) (size : ℤ) (files : Dict ℤ) {e : Entry}
      → entry_of scope key size ≡ some e
      → IsChild scope ((key, size) ∷ files) e
  IsChild-here key size files h =
      let (free, (at, shown)) = entry_of-shows scope key size h in (free, (at, ground arith))

  collect-IsChild :
      (files : Dict ℤ) (seen : List Str)
      → All (IsChild scope files) (collect scope files seen).0
        × All (IsChild scope files) (collect scope files seen).1
  unfolding collect
  collect-IsChild [] seen = (tt, tt)
  collect-IsChild ((key, size) ∷ files) seen =
      let later = IsChild-later (key, size) files in
      let dirs = λ (seen : List Str).
        All-imp later (collect scope files seen).0 (collect-IsChild files seen).0 in
      let regular = λ (seen : List Str).
        All-imp later (collect scope files seen).1 (collect-IsChild files seen).1 in
      elim (Option-cases (entry_of scope key size)) [
        | inl n ↦ rw (n, collect) (dirs seen, regular seen)
        | inr (e, h) ↦
            let here = IsChild-here key size files h in
            elim (Bool-cases e.is_dir) [
              | inl d ↦ elim (Bool-cases (any (str_eq e.name) seen)) [
                | inl t ↦ rw (h, d, t, collect) (dirs seen, regular seen)
                | inr t ↦
                    rw (h, d, t, collect) ((here, dirs (e.name ∷ seen)), regular (e.name ∷ seen))
              ]
              | inr d ↦ rw (h, d, collect) (dirs seen, (here, regular seen))
            ]
      ]

-- Every entry of a listing has a single name, stands in the folder, and shows some key: its own, or
-- one that lies in it.
pub list_dir-IsChild :
    (files : Dict ℤ) (prefix : Str) → All (IsChild (scope_of prefix) files) (list_dir files prefix)
unfolding list_dir sort_entries
list_dir-IsChild files prefix =
    let P = IsChild (scope_of prefix) files in
    let parts = collect (scope_of prefix) files [] in
    let children = collect-IsChild (scope_of prefix) files [] in
    All-append P (sort_entries parts.0) (sort_entries parts.1)
      (All-sort_stable entry_less P parts.0 children.0)
      (All-sort_stable entry_less P parts.1 children.1)
