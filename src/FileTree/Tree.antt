-- ===== src/FileTree/Tree.antt =====
-- filetree.go: the tree of the sidebar, `TreeNode`, `BuildTree` and what it calls. The pointer that
-- walks down the tree is a function on the children of the node that it stands at.
pub mod Paths
pub mod Shown
pub mod Laws
pub mod Whole
use mdfly.Common.{
  if◌then◌else◌, Str, str_eq, is_empty, trim, is_slash, Bool, true, false, not, ◌&&◌, ◌||◌, List,
  [], ◌∷◌, ◌++◌,
}
use mdfly.Common.Split.{split, join, str_lt}

-- The fields of a node but its children.
pub record Label : Type 0 where
  pub name : Str
  pub path : Str
  pub is_dir : Bool
  pub is_open : Bool
  pub current : Bool

mutual
  pub data TreeNode : Type 0 where
    node : Label → Nodes → TreeNode

  pub data Nodes : Type 0 where
    nil : Nodes
    cons : TreeNode → Nodes → Nodes

abbrev pub children : TreeNode → Nodes
children (node l ns) = ns

-- The test of `findChild`.
unfoldable pub is_child : Str → Bool → Label → Bool
unfolding str_eq
is_child name folder l = str_eq l.name name && (if folder then l.is_dir else not l.is_dir)

unfoldable pub find_child : Str → Bool → Nodes → Bool
unfolding is_child
find_child name folder nil = false
find_child name folder (cons (node l cs) ns) = is_child name folder l || find_child name folder ns

abbrev pub new_label : Str → Str → Bool → Label
new_label name path folder = record {
  name = name;
  path = path;
  is_dir = folder;
  is_open = false;
  current = false;
}

-- A step of the loop of `insert`: into the child of that name and kind, a new one where there is none.
unfoldable pub descend : Str → Str → Bool → (Nodes → Nodes) → Nodes → Nodes
unfolding is_child
descend name path folder go nil = cons (node (new_label name path folder) (go nil)) nil
descend name path folder go (cons (node l cs) ns) =
    let rest = descend name path folder go ns in
    if is_child name folder l then cons (node l (go cs)) ns else cons (node l cs) rest

abbrev pub is_last : List Str → Bool
is_last [] = true
is_last (_ ∷ _) = false

unfoldable pub insert_segs : List Str → List Str → Nodes → Nodes
unfolding join descend
insert_segs done [] ns = ns
insert_segs done (seg ∷ rest) ns =
    let upto = done ++ (seg ∷ []) in
    descend seg (join b'/' upto) (not (is_last rest)) (insert_segs upto rest) ns

unfoldable pub insert_key : Str → Nodes → Nodes
unfolding is_empty split insert_segs
insert_key key ns = if is_empty key then ns else insert_segs [] (split b'/' key) ns

unfoldable pub insert_keys : List Str → Nodes → Nodes
unfolding insert_key trim
insert_keys [] ns = ns
insert_keys (k ∷ ks) ns = insert_keys ks (insert_key (trim is_slash k) ns)

unfoldable pub node_less : Label → Label → Bool
unfolding str_lt
node_less a b =
    let by_name = str_lt a.name b.name in
    elim a.is_dir [
      | true ↦ if b.is_dir then by_name else true
      | false ↦ if b.is_dir then false else by_name
    ]

unfoldable pub insert_node : Label → Nodes → Nodes → Nodes
unfolding node_less
insert_node l cs nil = cons (node l cs) nil
insert_node l cs (cons (node m ds) ns) =
    let rest = insert_node l cs ns in
    if node_less m l then cons (node m ds) rest else cons (node l cs) (cons (node m ds) ns)

unfoldable pub sort_children : Nodes → Nodes
unfolding insert_node
sort_children nil = nil
sort_children (cons (node l cs) ns) = insert_node l (sort_children cs) (sort_children ns)

-- The first child of that name and kind changed, nothing where there is none.
unfoldable pub update_child : Str → Bool → (Label → Label) → (Nodes → Nodes) → Nodes → Nodes
unfolding is_child
update_child name folder f go nil = nil
update_child name folder f go (cons (node l cs) ns) =
    let rest = update_child name folder f go ns in
    if is_child name folder l then cons (node (f l) (go cs)) ns else cons (node l cs) rest

abbrev pub opened : Label → Label
opened l = record l { is_open = true }

abbrev pub marked : Label → Label
marked l = record l { current = true }

unfoldable pub mark_segs : List Str → Nodes → Nodes
unfolding find_child update_child
mark_segs [] ns = ns
mark_segs (seg ∷ []) ns =
    if find_child seg true ns
    then update_child seg true (λ l. opened (marked l)) (λ cs. cs) ns
    else update_child seg false marked (λ cs. cs) ns
mark_segs (seg ∷ next ∷ rest) ns = update_child seg true opened (mark_segs (next ∷ rest)) ns

unfoldable pub mark_current : Str → Nodes → Nodes
unfolding is_empty split mark_segs
mark_current key ns = if is_empty key then ns else mark_segs (split b'/' key) ns

-- The root's label is that of a folder without a name; these are its children.
unfoldable pub build_tree : List Str → Str → TreeNode
unfolding insert_keys sort_children mark_current trim
build_tree ks current_key =
    node (new_label [] [] true)
      (mark_current (trim is_slash current_key) (sort_children (insert_keys ks nil)))
