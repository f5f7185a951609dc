-- ===== src/Tests/Files.antt =====
-- Runs of the file tree, at a bundle of three files.
use mdfly.Common.{
  Str, codes, str_eq, is_empty, trim, is_slash, ℤ, pos, ◌≡◌, refl, true, false, none, some, List,
  [], ◌∷◌,
}
use mdfly.Common.Dict.{Dict}
use mdfly.FileTree.Classify.{dir, file, not_found, classify}
use mdfly.FileTree.Classify.Laws.{IsAnswer, classify-IsAnswer}
use mdfly.FileTree.Listing.{Entry, list_dir, index_file, entry_behind}
use mdfly.FileTree.Tree.Whole.{build_tree_whole}
use mdfly.FileTree.Tree.{children, build_tree}
use mdfly.FileTree.Tree.Laws.{AllNodes, IsAddressed}
use mdfly.FileTree.Tree.Paths.{any_node}
use mdfly.FileTree.Tree.Shown.{is_file_at}
use mdfly.FileTree.Crumbs.{breadcrumb, home}

abbrev readme : Str
readme = codes "README.md"

abbrev guide : Str
guide = codes "docs/guide.md"

abbrev logo : Str
logo = codes "docs/img/logo.png"

abbrev bundle_keys : List Str
bundle_keys = guide ∷ readme ∷ logo ∷ []

abbrev bundle_sizes : Dict ℤ
bundle_sizes = (guide, pos 20) ∷ (readme, pos 10) ∷ (logo, pos 300) ∷ []

classify_folder : classify bundle_keys (codes "/docs/") ≡ record { kind = dir; key = codes "docs" }
unfolding classify
classify_folder = refl

classify_file : classify bundle_keys (codes "docs/guide.md") ≡ record { kind = file; key = guide }
unfolding classify
classify_file = refl

classify_nothing : classify bundle_keys (codes "doc") ≡ record { kind = not_found; key = [] }
unfolding classify
classify_nothing = refl

classify-IsAnswer_example :
    IsAnswer bundle_keys
      (trim is_slash (codes "/docs/"))
      (classify bundle_keys (codes "/docs/")).kind
      (classify bundle_keys (codes "/docs/")).key
classify-IsAnswer_example = classify-IsAnswer bundle_keys (codes "/docs/")

abbrev docs_listing : List Entry
docs_listing =
    record { name = codes "img"; is_dir = true; size = pos 0; path = codes "docs/img" }
    ∷ record { name = codes "guide.md"; is_dir = false; size = pos 20; path = guide }
    ∷ []

list_dir_docs : list_dir bundle_sizes (codes "docs") ≡ docs_listing
unfolding list_dir entry_behind
list_dir_docs = refl

index_file_root : index_file bundle_keys [] ≡ some readme
unfolding index_file
index_file_root = refl

index_file_docs : index_file bundle_keys (codes "docs") ≡ none
unfolding index_file
index_file_docs = refl

build_tree_whole_example :
    (any_node (is_file_at (trim is_slash logo)) (children (build_tree bundle_keys guide)) ≡ true)
    × AllNodes (IsAddressed bundle_keys) (children (build_tree bundle_keys guide))
unfolding str_eq is_empty trim
build_tree_whole_example = build_tree_whole bundle_keys guide logo refl refl

breadcrumb_guide :
    breadcrumb guide
    ≡ home false
      ∷ record { name = codes "docs"; path = codes "docs"; is_current = false }
      ∷ record { name = codes "guide.md"; path = guide; is_current = true }
      ∷ []
unfolding breadcrumb
breadcrumb_guide = refl
