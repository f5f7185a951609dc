-- ===== src/FileTree/Listing.antt =====
-- filetree.go: the listing of a folder (`Entry`, `ListDir`, `sortEntries`) and the document shown
-- below it (`indexCandidates`, `IndexFile`).
pub mod Laws
pub mod Complete
pub mod Order
pub mod Whole
pub mod Index
use mdfly.Common.{
  if◌then◌else◌, find, any, Str, codes, str_eq, is_empty, cut_prefix, has_byte, to_lower, trim,
  is_slash, ℤ, pos, Bool, true, false, not, ◌&&◌, ◌||◌, Option, none, some, List, [], ◌∷◌, ◌++◌,
}
use mdfly.Common.Dict.{Dict}
use mdfly.Common.Split.{str_lt, cut}
use mdfly.Common.Sort.{sort_stable}

pub record Entry : Type 0 where
  pub name : Str
  pub is_dir : Bool
  pub size : ℤ
  pub path : Str

-- The prefix that the keys in a folder share.
unfoldable pub scope_of : Str → Str
unfolding trim is_empty
scope_of prefix = let p = trim is_slash prefix in if is_empty p then [] else p ++ codes "/"

-- The entry of a key in the folder, from what is behind the prefix.
unfoldable pub entry_behind : Str → Str → ℤ → Str → Entry
unfolding cut
entry_behind scope key size rest =
    let name = (cut b'/' rest).0 in
    elim (cut b'/' rest).1 [
      | some _ ↦ record { name = name; is_dir = true; size = pos 0; path = scope ++ name }
      | none ↦ record { name = rest; is_dir = false; size = size; path = key }
    ]

-- One round of the loop: the entry of a key, none where the key is not in the folder.
unfoldable pub entry_of : Str → Str → ℤ → Option Entry
unfolding cut_prefix
entry_of scope key size = elim (cut_prefix key scope) [
  | none ↦ none
  | some [] ↦ none
  | some (c ∷ s) ↦ some (entry_behind scope key size (c ∷ s))
]

-- The loop with the folders seen so far; folders and files in the order of the map.
unfoldable pub collect : Str → Dict ℤ → List Str → List Entry × List Entry
unfolding entry_of str_eq
collect scope [] seen = ([], [])
collect scope ((key, size) ∷ files) seen = elim (entry_of scope key size) [
  | none ↦ collect scope files seen
  | some e ↦ elim e.is_dir [
    | true ↦ elim (any (str_eq e.name) seen) [
      | true ↦ collect scope files seen
      | false ↦ let rest = collect scope files (e.name ∷ seen) in (e ∷ rest.0, rest.1)
    ]
    | false ↦ let rest = collect scope files seen in (rest.0, e ∷ rest.1)
  ]
]

unfoldable pub entry_less : Entry → Entry → Bool
unfolding str_lt
entry_less a b = str_lt a.name b.name

unfoldable pub sort_entries : List Entry → List Entry
unfolding sort_stable entry_less
sort_entries es = sort_stable entry_less es

unfoldable pub list_dir : Dict ℤ → Str → List Entry
unfolding scope_of collect sort_entries
list_dir files prefix =
    let parts = collect (scope_of prefix) files [] in sort_entries parts.0 ++ sort_entries parts.1

abbrev pub index_candidates : List Str
index_candidates = codes "readme.md" ∷ codes "index.md" ∷ []

-- The test of the inner loop of `IndexFile`.
unfoldable pub is_index : Str → Str → Str → Bool
unfolding cut_prefix has_byte to_lower str_eq is_empty
is_index scope want key = elim (cut_prefix key scope) [
  | none ↦ false
  | some rest ↦ not (is_empty rest || has_byte b'/' rest) && str_eq (to_lower rest) want
]

unfoldable pub index_among : List Str → Str → List Str → Option Str
unfolding is_index
index_among ks scope [] = none
index_among ks scope (want ∷ wants) = elim (find (is_index scope want) ks) [
  | some k ↦ some k
  | none ↦ index_among ks scope wants
]

unfoldable pub index_file : List Str → Str → Option Str
unfolding index_among scope_of
index_file ks prefix = index_among ks (scope_of prefix) index_candidates
