-- ===== src/FileTree/Tree/Shown.antt =====
-- A tree shows every key.
use mdfly.Common.{
  Bool-cases, any, Str, str_eq, str_eq_iff, str_eq_refl, is_empty, trim, is_slash, ◌≡◌, refl, ap,
  ◌∙◌, subst, ◌≢◌, inl, inr, Bool, true, false, not, ◌&&◌, List, [], ◌∷◌, ◌++◌, arith,
}
use mdfly.Common.Split.{split, join, join-split, split-nonempty}
use mathlib.Core.List.{append_assoc}
use mdfly.FileTree.Tree.{
  Label, Nodes, node, nil, cons, is_child, descend, is_last, insert_segs, marked, children,
  find_child, insert_key, insert_keys, sort_children, opened, mark_segs, mark_current, build_tree,
}
use mdfly.FileTree.Tree.Paths.{
  any_node, IsPlaced, IsPlaced-descend, descend_keeps, descend_shows, or_last, is_child-name,
  any-sort_children, any-update_child,
}

-- The file node of a path.
abbrev pub is_file_at : Str → Label → Bool
is_file_at path l = not l.is_dir && str_eq l.path path

IsPlaced-insert_segs :
    (done rest : List Str) (ns : Nodes)
    → IsPlaced done ns
    → IsPlaced done (insert_segs done rest ns)
unfolding insert_segs
IsPlaced-insert_segs done [] ns at = at
IsPlaced-insert_segs done (seg ∷ rest) ns at =
    let upto = done ++ (seg ∷ []) in
    IsPlaced-descend done seg (not (is_last rest)) (insert_segs upto rest)
      (IsPlaced-insert_segs upto rest) ns at

insert_segs_keeps :
    (p : Label → Bool) (done rest : List Str) (ns : Nodes)
    → any_node p ns ≡ true
    → any_node p (insert_segs done rest ns) ≡ true
unfolding insert_segs
insert_segs_keeps p done [] ns s = s
insert_segs_keeps p done (seg ∷ rest) ns s =
    let upto = done ++ (seg ∷ []) in
    descend_keeps done seg (not (is_last rest)) (insert_segs upto rest) p
      (insert_segs_keeps p upto rest) (join b'/' upto) ns s

-- The last step makes the node, or finds it: a file of that name has that path.
last_shows :
    (done : List Str) (seg : Str) (ns : Nodes)
    → IsPlaced done ns
    → any_node
        (is_file_at (join b'/' (done ++ (seg ∷ []))))
        (descend seg (join b'/' (done ++ (seg ∷ []))) false (λ cs. cs) ns)
      ≡ true
unfolding descend
last_shows done seg nil at = ground (arith, str_eq_refl (join b'/' (done ++ (seg ∷ []))))
last_shows done seg (cons (node l cs) ns) at = elim (Bool-cases (is_child seg false l)) [
  | inl t ↦
      let (name, kind) = is_child-name seg false l t in
      let path : l.path ≡ join b'/' (done ++ (seg ∷ [])) =
        at.0 ∙ ap (λ n. join b'/' (done ++ (n ∷ []))) name in
      rw (t, descend, path, kind, str_eq_refl (join b'/' (done ++ (seg ∷ [])))) refl
  | inr f ↦ rw (f, descend, last_shows done seg ns at.1.1) (or_last _ _)
]

insert_segs_shows :
    (done : List Str) (seg : Str) (rest : List Str) (ns : Nodes)
    → IsPlaced done ns
    → any_node (is_file_at (join b'/' (done ++ (seg ∷ rest)))) (insert_segs done (seg ∷ rest) ns)
      ≡ true
unfolding insert_segs
insert_segs_shows done seg [] ns at = last_shows done seg ns at
insert_segs_shows done seg (next ∷ rest) ns at =
    let upto = done ++ (seg ∷ []) in
    let p = is_file_at (join b'/' (done ++ (seg ∷ next ∷ rest))) in
    descend_shows done seg true (insert_segs upto (next ∷ rest)) p
      (λ cs below.
        subst (λ l. any_node (is_file_at (join b'/' l)) (insert_segs upto (next ∷ rest) cs) ≡ true)
          (append_assoc done (seg ∷ []) (next ∷ rest)) (insert_segs_shows upto next rest cs below))
      (join b'/' upto) ns at

insert_all_shows :
    (segs : List Str) (ns : Nodes)
    → segs ≢ []
    → IsPlaced [] ns
    → any_node (is_file_at (join b'/' segs)) (insert_segs [] segs ns) ≡ true
insert_all_shows [] ns h at = elim (h refl) [ ]
insert_all_shows (seg ∷ rest) ns h at = insert_segs_shows [] seg rest ns at

insert_key_shows :
    (key : Str) (ns : Nodes)
    → is_empty key ≡ false
    → IsPlaced [] ns
    → any_node (is_file_at key) (insert_key key ns) ≡ true
unfolding insert_key
insert_key_shows key ns f at =
    rw (f, insert_key)
      (subst (λ s. any_node (is_file_at s) (insert_segs [] (split b'/' key) ns) ≡ true)
        (join-split b'/' key) (insert_all_shows (split b'/' key) ns (split-nonempty b'/' key) at))

insert_key_keeps :
    (p : Label → Bool) (key : Str) (ns : Nodes)
    → any_node p ns ≡ true
    → any_node p (insert_key key ns) ≡ true
unfolding insert_key
insert_key_keeps p key ns s = elim (Bool-cases (is_empty key)) [
  | inl t ↦ rw (t, insert_key) s
  | inr f ↦ rw (f, insert_key) (insert_segs_keeps p [] (split b'/' key) ns s)
]

IsPlaced-insert_key : (key : Str) (ns : Nodes) → IsPlaced [] ns → IsPlaced [] (insert_key key ns)
unfolding insert_key
IsPlaced-insert_key key ns at = elim (Bool-cases (is_empty key)) [
  | inl t ↦ rw (t, insert_key) at
  | inr f ↦ rw (f, insert_key) (IsPlaced-insert_segs [] (split b'/' key) ns at)
]

insert_keys_keeps :
    (p : Label → Bool) (ks : List Str) (ns : Nodes)
    → any_node p ns ≡ true
    → any_node p (insert_keys ks ns) ≡ true
unfolding insert_keys
insert_keys_keeps p [] ns s = s
insert_keys_keeps p (k ∷ ks) ns s =
    insert_keys_keeps p ks (insert_key (trim is_slash k) ns)
      (insert_key_keeps p (trim is_slash k) ns s)

insert_keys_shows :
    (key : Str) (ks : List Str) (ns : Nodes)
    → is_empty (trim is_slash key) ≡ false
    → IsPlaced [] ns
    → any (str_eq key) ks ≡ true
    → any_node (is_file_at (trim is_slash key)) (insert_keys ks ns) ≡ true
unfolding insert_keys
insert_keys_shows key [] ns f at listed = cc
insert_keys_shows key (k ∷ ks) ns f at listed = elim (Bool-cases (str_eq key k)) [
  | inl t ↦
      let same = (str_eq_iff key k).0 t in
      insert_keys_keeps (is_file_at (trim is_slash key)) ks (insert_key (trim is_slash k) ns) (
        subst
          (λ j. any_node (is_file_at (trim is_slash key)) (insert_key (trim is_slash j) ns) ≡ true)
          same (insert_key_shows (trim is_slash key) ns f at))
  | inr g ↦
      insert_keys_shows key ks (insert_key (trim is_slash k) ns) f
        (IsPlaced-insert_key (trim is_slash k) ns at) (rw g at listed)
]

module _ (path : Str) where
  any-mark_segs :
      (segs : List Str) (ns : Nodes)
      → any_node (is_file_at path) (mark_segs segs ns) ≡ any_node (is_file_at path) ns
  unfolding mark_segs
  any-mark_segs [] ns = refl
  any-mark_segs (seg ∷ []) ns = elim (Bool-cases (find_child seg true ns)) [
    | inl t ↦
        rw (t, mark_segs)
          (any-update_child (is_file_at path) seg true (λ l. opened (marked l)) (λ cs. cs)
            (λ l. refl) (λ cs. refl) ns)
    | inr f ↦
        rw (f, mark_segs)
          (any-update_child (is_file_at path) seg false marked (λ cs. cs) (λ l. refl) (λ cs. refl)
            ns)
  ]
  any-mark_segs (seg ∷ next ∷ rest) ns =
      any-update_child (is_file_at path) seg true opened (mark_segs (next ∷ rest)) (λ l. refl)
        (any-mark_segs (next ∷ rest)) ns

  any-mark_current :
      (key : Str) (ns : Nodes)
      → any_node (is_file_at path) (mark_current key ns) ≡ any_node (is_file_at path) ns
  unfolding mark_current
  any-mark_current key ns = elim (Bool-cases (is_empty key)) [
    | inl t ↦ rw (t, mark_current) refl
    | inr f ↦ rw (f, mark_current) (any-mark_segs (split b'/' key) ns)
  ]

-- A tree has a file node for every key that is more than slashes, with the trimmed key as its path.
pub build_tree_shows :
    (ks : List Str) (current_key key : Str)
    → any (str_eq key) ks ≡ true
    → is_empty (trim is_slash key) ≡ false
    → any_node (is_file_at (trim is_slash key)) (children (build_tree ks current_key)) ≡ true
unfolding build_tree
build_tree_shows ks current_key key listed f =
    any-mark_current (trim is_slash key) (trim is_slash current_key)
      (sort_children (insert_keys ks nil))
    ∙ any-sort_children (is_file_at (trim is_slash key)) (insert_keys ks nil)
    ∙ insert_keys_shows key ks nil f tt listed
