-- ===== src/FileTree/Listing/Order.antt =====
-- The order of a listing: folders first, then files, each group by name.
use mdfly.Common.{
  Bool-cases, Option-cases, any, All, All-append, Str, str_eq, ℤ, ◌≡◌, inl, inr, Bool, true, false,
  not, ◌&&◌, ◌||◌, List, [], ◌∷◌, ◌++◌, arith,
}
use mdfly.Common.Dict.{Dict}
use mdfly.Common.Sort.{IsSorted, sort_stable-IsSorted, sort_stable, All-sort_stable}
use mdfly.FileTree.Listing.{Entry, entry_less, collect, list_dir, sort_entries, scope_of, entry_of}
use mdfly.Common.Split.{str_lt, str_lt_asym, str_ge_trans}

abbrev pub stands_before : Entry → Entry → Bool
stands_before a b = elim a.is_dir [
  | true ↦ not b.is_dir || str_lt a.name b.name
  | false ↦ not b.is_dir && str_lt a.name b.name
]

abbrev OfKind : Bool → Entry → Type 0
OfKind b e = e.is_dir ≡ b

collect-kinds :
    (scope : Str) (files : Dict ℤ) (seen : List Str)
    → All (OfKind true) (collect scope files seen).0
      × All (OfKind false) (collect scope files seen).1
unfolding collect
collect-kinds scope [] seen = (tt, tt)
collect-kinds scope ((key, size) ∷ files) seen =
    let ih = collect-kinds scope files in
    elim (Option-cases (entry_of scope key size)) [
      | inl n ↦ rw (n, collect) (ih seen)
      | inr (e, h) ↦ elim (Bool-cases e.is_dir) [
        | inl d ↦ elim (Bool-cases (any (str_eq e.name) seen)) [
          | inl t ↦ rw (h, d, t, collect) (ih seen)
          | inr t ↦ rw (h, d, t, collect) ((d, (ih (e.name ∷ seen)).0), (ih (e.name ∷ seen)).1)
        ]
        | inr d ↦ rw (h, d, collect) ((ih seen).0, (d, (ih seen).1))
      ]
    ]

-- Within a kind the two orders agree.
All-same_kind :
    (b : Bool) (x : Entry) (ys : List Entry)
    → OfKind b x
    → All (OfKind b) ys
    → All (λ y. entry_less y x ≡ false) ys
    → All (λ y. stands_before y x ≡ false) ys
unfolding entry_less
All-same_kind b x [] d ds h = tt
All-same_kind true x (y ∷ ys) d ds h = (ground arith, All-same_kind true x ys d ds.1 h.1)
All-same_kind false x (y ∷ ys) d ds h = (ground arith, All-same_kind false x ys d ds.1 h.1)

IsSorted-same_kind :
    (b : Bool) (xs : List Entry)
    → All (OfKind b) xs
    → IsSorted entry_less xs
    → IsSorted stands_before xs
IsSorted-same_kind b [] ds h = tt
IsSorted-same_kind b (x ∷ xs) ds h =
    (All-same_kind b x xs ds.0 ds.1 h.0, IsSorted-same_kind b xs ds.1 h.1)

All-files_behind :
    (x : Entry) (ys : List Entry)
    → OfKind true x
    → All (OfKind false) ys
    → All (λ y. stands_before y x ≡ false) ys
All-files_behind x [] d ds = tt
All-files_behind x (y ∷ ys) d ds = (ground arith, All-files_behind x ys d ds.1)

IsSorted-append :
    (xs ys : List Entry)
    → All (OfKind true) xs
    → All (OfKind false) ys
    → IsSorted stands_before xs
    → IsSorted stands_before ys
    → IsSorted stands_before (xs ++ ys)
IsSorted-append [] ys ds es h k = k
IsSorted-append (x ∷ xs) ys ds es h k = (
  All-append (λ y. stands_before y x ≡ false) xs ys h.0 (All-files_behind x ys ds.0 es),
  IsSorted-append xs ys ds.1 es h.1 k,
)

sort_entries-IsSorted :
    (b : Bool) (xs : List Entry)
    → All (OfKind b) xs
    → All (OfKind b) (sort_entries xs) × IsSorted stands_before (sort_entries xs)
unfolding sort_entries entry_less
sort_entries-IsSorted b xs ds =
    let kinds = All-sort_stable entry_less (OfKind b) xs ds in
    (
      kinds,
      IsSorted-same_kind b (sort_stable entry_less xs) kinds (
          sort_stable-IsSorted entry_less (λ a b. str_lt_asym a.name b.name)
            (λ a b c. str_ge_trans a.name b.name c.name) xs),
    )

-- A listing shows the folders first, then the files, each group in the order of the names.
pub list_dir-IsSorted :
    (files : Dict ℤ) (prefix : Str) → IsSorted stands_before (list_dir files prefix)
unfolding list_dir
list_dir-IsSorted files prefix =
    let parts = collect (scope_of prefix) files [] in
    let kinds = collect-kinds (scope_of prefix) files [] in
    let dirs = sort_entries-IsSorted true parts.0 kinds.0 in
    let regular = sort_entries-IsSorted false parts.1 kinds.1 in
    IsSorted-append (sort_entries parts.0) (sort_entries parts.1) dirs.0 regular.0 dirs.1 regular.1
