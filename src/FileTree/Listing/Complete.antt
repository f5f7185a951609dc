-- ===== src/FileTree/Listing/Complete.antt =====
-- The listing of a folder leaves out no key that lies in it.
use mdfly.Common.{
  Bool-cases, Option-cases, any, Str, codes, str_eq, str_eq_iff, cut_prefix, has_prefix, ℤ, ℕ, ◌≡◌,
  refl, sym, subst, inl, inr, Bool, true, ◌||◌, some, List, [], ◌∷◌, ◌++◌, arith,
}
use mdfly.Common.Dict.{Dict}
use mdfly.FileTree.Listing.{
  Entry, entry_of, collect, list_dir, entry_behind, scope_of, entry_less, sort_entries,
}
use mdfly.FileTree.Listing.Laws.{shows, entry_of-shows}
use mdfly.Common.Lookup.{any-append}
use mdfly.Common.Sort.{any-sort_stable}

-- A folder of the list of folders seen that the key lies in.
abbrev seen_shows : Str → Str → List Str → Bool
seen_shows scope key seen = any (λ n. has_prefix key (scope ++ n ++ codes "/")) seen

any-of_listed :
    (p : Str → Bool) (x : Str) (xs : List Str)
    → any (str_eq x) xs ≡ true
    → p x ≡ true
    → any p xs ≡ true
any-of_listed p x [] h k = cc
any-of_listed p x (y ∷ xs) h k = ground (arith, str_eq_iff x y, any-of_listed p x xs)

module _ (scope key : Str) where
  covers : List Entry × List Entry → List Str → Bool
  covers parts seen =
      any (shows key) parts.0 || any (shows key) parts.1 || seen_shows scope key seen

  shows_folder :
      (e : Entry)
      → e.is_dir ≡ true
      → e.path ≡ scope ++ e.name
      → shows key e ≡ has_prefix key (scope ++ e.name ++ codes "/")
  shows_folder e d at = rw (d, at) refl

  module _ (c : ℕ) (s : Str) (h : cut_prefix key scope ≡ some (c ∷ s)) where
    entry_of_key :
        (size : ℤ) → (e : Entry) × ((entry_of scope key size ≡ some e) × (shows key e ≡ true))
    unfolding entry_of
    entry_of_key size =
        let step : entry_of scope key size ≡ some (entry_behind scope key size (c ∷ s)) =
          rw (h, entry_of) refl in
        (entry_behind scope key size (c ∷ s), (step, (entry_of-shows scope key size step).1.1))

    covers_here :
        (size : ℤ) (files : Dict ℤ) (seen : List Str)
        → covers (collect scope ((key, size) ∷ files) seen) seen ≡ true
    unfolding collect covers
    covers_here size files seen =
        let (e, (step, shown)) = entry_of_key size in
        let at = (entry_of-shows scope key size step).1.0 in
        elim (Bool-cases e.is_dir) [
          | inr d ↦ rw (step, d, collect) (ground arith)
          | inl d ↦
              let under : has_prefix key (scope ++ e.name ++ codes "/") ≡ true =
                rw (shows_folder e d at) at shown in
              elim (Bool-cases (any (str_eq e.name) seen)) [
                | inr t ↦ rw (step, d, t, collect) (ground arith)
                | inl t ↦
                    let seen_so =
                      any-of_listed (λ n. has_prefix key (scope ++ n ++ codes "/")) e.name seen t
                        under in
                    rw (step, d, t, collect) (ground arith)
              ]
        ]

    collect-covers :
        (files : Dict ℤ) (seen : List Str)
        → any (λ f. str_eq f.0 key) files ≡ true
        → covers (collect scope files seen) seen ≡ true
    unfolding collect covers
    collect-covers [] seen listed = cc
    collect-covers ((k, size) ∷ files) seen listed = elim (Bool-cases (str_eq k key)) [
      | inl t ↦
          subst (λ k. covers (collect scope ((k, size) ∷ files) seen) seen ≡ true)
            (sym ((str_eq_iff k key).0 t)) (covers_here size files seen)
      | inr f ↦
          let ih = λ (seen : List Str). collect-covers files seen (rw f at listed) in
          elim (Option-cases (entry_of scope k size)) [
            | inl n ↦ rw (n, collect) (ih seen)
            | inr (e, step) ↦
                let at = (entry_of-shows scope k size step).1.0 in
                elim (Bool-cases e.is_dir) [
                  | inr d ↦ rw (step, d, collect) (ground (arith, ih seen))
                  | inl d ↦ elim (Bool-cases (any (str_eq e.name) seen)) [
                    | inl t ↦ rw (step, d, t, collect) (ih seen)
                    | inr t ↦
                        rw (step, d, t, collect)
                          (ground (arith, ih (e.name ∷ seen), shows_folder e d at))
                  ]
                ]
          ]
    ]

-- A listing leaves out no key that is in the folder: the key has an entry of its own, or lies in a
-- folder that has one.
pub list_dir_complete :
    (files : Dict ℤ) (prefix key : Str) (c : ℕ) (s : Str)
    → any (λ f. str_eq f.0 key) files ≡ true
    → cut_prefix key (scope_of prefix) ≡ some (c ∷ s)
    → any (shows key) (list_dir files prefix) ≡ true
unfolding list_dir sort_entries covers
list_dir_complete files prefix key c s listed h =
    let scope = scope_of prefix in
    let parts = collect scope files [] in
    ground (
      arith,
      any-append (shows key) (sort_entries parts.0) (sort_entries parts.1),
      any-sort_stable entry_less (shows key) parts.0,
      any-sort_stable entry_less (shows key) parts.1,
      collect-covers scope key c s h files [] listed,
    )
