-- ===== src/FileTree/Tree/Whole.antt =====
-- `BuildTree`: the nodes that a tree has.
use mdfly.Common.{any, Str, str_eq, is_empty, trim, is_slash, ◌≡◌, true, false, List}
use mdfly.FileTree.Tree.{build_tree, children}
use mdfly.FileTree.Tree.Laws.{AllNodes, IsAddressed, build_tree-IsAddressed}
use mdfly.FileTree.Tree.Shown.{is_file_at, build_tree_shows}
use mdfly.FileTree.Tree.Paths.{any_node}

-- A tree has a file node for a key that is more than slashes, with the trimmed key as its path. All its
-- nodes are addressed by the keys: a file node has the path of a key, a folder node the path of a folder
-- that a key lies in.
pub build_tree_whole :
    (ks : List Str) (current_key key : Str)
    → any (str_eq key) ks ≡ true
    → is_empty (trim is_slash key) ≡ false
    → (any_node (is_file_at (trim is_slash key)) (children (build_tree ks current_key)) ≡ true)
      × AllNodes (IsAddressed ks) (children (build_tree ks current_key))
build_tree_whole ks current_key key listed f =
    (build_tree_shows ks current_key key listed f, build_tree-IsAddressed ks current_key)
