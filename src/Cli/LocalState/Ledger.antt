-- ===== src/Cli/LocalState/Ledger.antt =====
-- ledger.go: the records as `Load` gives them, with the index from paths to slugs.
pub mod Paths
use mdfly.Common.{Str, Option, none, some, List, [], ◌∷◌, ◌++◌}
use mdfly.Common.Dict.{Dict, insert, lookup}
use mdfly.Common.Split.{str_lt}
use mdfly.Common.Sort.{sort_stable}
use mdfly.Cli.LocalState.{Record, Codec, Disk, Calls, Answer, got, broke, read_state}

pub record Ledger : Type 0 where
  pub records : Dict Record
  pub path_index : Dict (List Str)

-- A missing entry reads as the empty list.
unfoldable pub slugs_at : Str → Dict (List Str) → List Str
unfolding lookup
slugs_at path index = elim (lookup path index) [ none ↦ [] | some slugs ↦ slugs ]

unfoldable pub index_one : Str → Option Str → Dict (List Str) → Dict (List Str)
unfolding insert slugs_at
index_one slug none index = index
index_one slug (some path) index = insert path (slugs_at path index ++ (slug ∷ [])) index

unfoldable pub index_records : Dict (List Str) → Dict Record → Dict (List Str)
unfolding index_one
index_records index [] = index
index_records index ((slug, rec) ∷ records) = index_records (index_one slug rec.path index) records

unfoldable pub sort_index : Dict (List Str) → Dict (List Str)
unfolding sort_stable str_lt
sort_index [] = []
sort_index ((path, slugs) ∷ index) = (path, sort_stable str_lt slugs) ∷ sort_index index

unfoldable pub new_ledger : Dict Record → Ledger
unfolding index_records sort_index
new_ledger records = record {
  records = records;
  path_index = sort_index (index_records [] records);
}

-- `Get`
unfoldable pub get : Ledger → Str → Option Record
unfolding lookup
get l slug = lookup slug l.records

unfoldable pub values : Dict Record → List Record
values [] = []
values ((_, rec) ∷ records) = rec ∷ values records

-- `All`
unfoldable pub all_records : Ledger → List Record
unfolding values sort_stable str_lt
all_records l = sort_stable (λ a b. str_lt a.slug b.slug) (values l.records)

unfoldable pub slugs_for_path : Ledger → Str → List Str
unfolding slugs_at
slugs_for_path l path = slugs_at path l.path_index

unfoldable pub as_ledger : Disk × Answer (Dict Record) → Disk × Answer Ledger
unfolding new_ledger
as_ledger (d, broke e) = (d, broke e)
as_ledger (d, got records) = (d, got (new_ledger records))

-- `Load`
unfoldable pub load : Codec → Calls → Disk → Disk × Answer Ledger
unfolding read_state as_ledger
load codec c d = as_ledger (read_state codec c d)
