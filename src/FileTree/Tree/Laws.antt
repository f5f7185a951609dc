-- ===== src/FileTree/Tree/Laws.antt =====
-- The nodes of a tree are the keys and their folders.
use mathlib.Core.List.{append_assoc}
use mdfly.Common.{
  if◌then◌else◌, Bool-cases, any, All, All-imp, Str, codes, str_eq, str_eq_iff, str_eq_refl,
  is_empty, has_prefix, has_prefix-append, trim, is_slash, ◌≡◌, sym, ◌∙◌, subst, inl, inr, Bool,
  true, false, List, [], ◌∷◌, ◌++◌, arith,
}
use mdfly.Common.Split.{split, join, join-split, join-prefix}
use mdfly.FileTree.Tree.{
  Label, Nodes, node, nil, cons, marked, is_child, find_child, new_label, descend, node_less,
  insert_node, sort_children, update_child, opened, mark_segs, mark_current, insert_segs,
  insert_key, insert_keys, children, build_tree,
}
use mdfly.Common.Lookup.{any-imp}

-- A predicate on the labels of all nodes; it does not look at the marks.
abbrev pub AllNodes : (Label → Type 0) → Nodes → Type 0
AllNodes P nil = Unit
AllNodes P (cons (node l cs) ns) = P l × (AllNodes P cs × AllNodes P ns)

-- A file node has the path of a key, a folder node one that a key lies under.
abbrev pub IsAddressed : List Str → Label → Type 0
IsAddressed ks l =
    (if l.is_dir
      then any (λ k. has_prefix (trim is_slash k) (l.path ++ codes "/")) ks
      else any (λ k. str_eq (trim is_slash k) l.path) ks)
    ≡ true

module _ (P : Label → Type 0) where
  AllNodes-descend :
      (name path : Str) (folder : Bool) (go : Nodes → Nodes)
      → P (new_label name path folder)
      → ((cs : Nodes) → AllNodes P cs → AllNodes P (go cs))
      → (ns : Nodes) → AllNodes P ns
      → AllNodes P (descend name path folder go ns)
  unfolding descend
  AllNodes-descend name path folder go p h nil all = (p, (h nil tt, tt))
  AllNodes-descend name path folder go p h (cons (node l cs) ns) all =
      elim (Bool-cases (is_child name folder l)) [
        | inl t ↦ rw (t, descend) (all.0, (h cs all.1.0, all.1.1))
        | inr f ↦
            rw (f, descend) (all.0, (all.1.0, AllNodes-descend name path folder go p h ns all.1.1))
      ]

  AllNodes-insert_node :
      (l : Label) (cs ns : Nodes)
      → P l
      → AllNodes P cs
      → AllNodes P ns
      → AllNodes P (insert_node l cs ns)
  unfolding insert_node
  AllNodes-insert_node l cs nil p c all = (p, (c, tt))
  AllNodes-insert_node l cs (cons (node m ds) ns) p c all = elim (Bool-cases (node_less m l)) [
    | inl t ↦ rw (t, insert_node) (all.0, (all.1.0, AllNodes-insert_node l cs ns p c all.1.1))
    | inr f ↦ rw (f, insert_node) (p, (c, all))
  ]

  AllNodes-sort_children : (ns : Nodes) → AllNodes P ns → AllNodes P (sort_children ns)
  unfolding sort_children
  AllNodes-sort_children nil all = tt
  AllNodes-sort_children (cons (node l cs) ns) all =
      AllNodes-insert_node l (sort_children cs) (sort_children ns) all.0
        (AllNodes-sort_children cs all.1.0) (AllNodes-sort_children ns all.1.1)

  AllNodes-update_child :
      (name : Str) (folder : Bool) (f : Label → Label) (go : Nodes → Nodes)
      → ((l : Label) → P l → P (f l))
      → ((cs : Nodes) → AllNodes P cs → AllNodes P (go cs))
      → (ns : Nodes) → AllNodes P ns
      → AllNodes P (update_child name folder f go ns)
  unfolding update_child
  AllNodes-update_child name folder f go p h nil all = tt
  AllNodes-update_child name folder f go p h (cons (node l cs) ns) all =
      elim (Bool-cases (is_child name folder l)) [
        | inl t ↦ rw (t, update_child) (p l all.0, (h cs all.1.0, all.1.1))
        | inr g ↦
            rw (g, update_child)
              (all.0, (all.1.0, AllNodes-update_child name folder f go p h ns all.1.1))
      ]

  module _ (opening : (l : Label) → P l → P (opened l))
      (marking : (l : Label) → P l → P (marked l)) where
    AllNodes-mark_segs :
        (segs : List Str) (ns : Nodes) → AllNodes P ns → AllNodes P (mark_segs segs ns)
    unfolding mark_segs
    AllNodes-mark_segs [] ns all = all
    AllNodes-mark_segs (seg ∷ []) ns all = elim (Bool-cases (find_child seg true ns)) [
      | inl t ↦
          rw (t, mark_segs)
            (AllNodes-update_child seg true (λ l. opened (marked l)) (λ cs. cs)
              (λ l p. opening (marked l) (marking l p)) (λ cs h. h) ns all)
      | inr f ↦
          rw (f, mark_segs)
            (AllNodes-update_child seg false marked (λ cs. cs) marking (λ cs h. h) ns all)
    ]
    AllNodes-mark_segs (seg ∷ next ∷ rest) ns all =
        AllNodes-update_child seg true opened (mark_segs (next ∷ rest)) opening
          (AllNodes-mark_segs (next ∷ rest)) ns all

    AllNodes-mark_current :
        (key : Str) (ns : Nodes) → AllNodes P ns → AllNodes P (mark_current key ns)
    unfolding mark_current
    AllNodes-mark_current key ns all = elim (Bool-cases (is_empty key)) [
      | inl t ↦ rw (t, mark_current) all
      | inr f ↦ rw (f, mark_current) (AllNodes-mark_segs (split b'/' key) ns all)
    ]

-- A key lies under the path of the folder that its first segments make.
under_upto :
    (done : List Str) (seg next : Str) (rest : List Str) (k : Str)
    → str_eq k (join b'/' (done ++ (seg ∷ next ∷ rest))) ≡ true
    → has_prefix k (join b'/' (done ++ (seg ∷ [])) ++ codes "/") ≡ true
under_upto done seg next rest k h =
    let path = join b'/' (done ++ (seg ∷ [])) in
    let behind = join b'/' (next ∷ rest) in
    let whole =
      append_assoc path (codes "/") behind
      ∙ sym (join-prefix b'/' done seg next rest)
      ∙ sym ((str_eq_iff k (join b'/' (done ++ (seg ∷ next ∷ rest)))).0 h) in
    subst (λ k. has_prefix k (path ++ codes "/") ≡ true) whole
      (has_prefix-append (path ++ codes "/") behind)

module _ (ks : List Str) where
  AllNodes-insert_segs :
      (done rest : List Str)
      → any (λ k. str_eq (trim is_slash k) (join b'/' (done ++ rest))) ks ≡ true
      → (ns : Nodes) → AllNodes (IsAddressed ks) ns
      → AllNodes (IsAddressed ks) (insert_segs done rest ns)
  unfolding insert_segs
  AllNodes-insert_segs done [] h ns all = all
  AllNodes-insert_segs done (seg ∷ []) h ns all =
      AllNodes-descend (IsAddressed ks) seg (join b'/' (done ++ (seg ∷ []))) false (λ cs. cs) h
        (λ cs all. all) ns all
  AllNodes-insert_segs done (seg ∷ next ∷ rest) h ns all =
      let upto = done ++ (seg ∷ []) in
      let further =
        subst (λ l. any (λ k. str_eq (trim is_slash k) (join b'/' l)) ks ≡ true)
          (sym (append_assoc done (seg ∷ []) (next ∷ rest))) h in
      AllNodes-descend (IsAddressed ks) seg (join b'/' upto) true (insert_segs upto (next ∷ rest))
        (any-imp (λ k. str_eq (trim is_slash k) (join b'/' (done ++ (seg ∷ next ∷ rest))))
          (λ k. has_prefix (trim is_slash k) (join b'/' upto ++ codes "/"))
          (λ k. under_upto done seg next rest (trim is_slash k)) ks h)
        (AllNodes-insert_segs upto (next ∷ rest) further) ns all

  AllNodes-insert_key :
      (k : Str)
      → any (λ j. str_eq (trim is_slash j) (trim is_slash k)) ks ≡ true
      → (ns : Nodes) → AllNodes (IsAddressed ks) ns
      → AllNodes (IsAddressed ks) (insert_key (trim is_slash k) ns)
  unfolding insert_key
  AllNodes-insert_key k h ns all = elim (Bool-cases (is_empty (trim is_slash k))) [
    | inl t ↦ rw (t, insert_key) all
    | inr f ↦
        rw (f, insert_key)
          (AllNodes-insert_segs [] (split b'/' (trim is_slash k))
            (rw (join-split b'/' (trim is_slash k)) h) ns all)
  ]

  -- `js` are keys of `ks`.
  AllNodes-insert_keys :
      (js : List Str)
      → All (λ k. any (λ j. str_eq (trim is_slash j) (trim is_slash k)) ks ≡ true) js
      → (ns : Nodes) → AllNodes (IsAddressed ks) ns
      → AllNodes (IsAddressed ks) (insert_keys js ns)
  unfolding insert_keys
  AllNodes-insert_keys [] h ns all = all
  AllNodes-insert_keys (k ∷ js) h ns all =
      AllNodes-insert_keys js h.1 (insert_key (trim is_slash k) ns)
        (AllNodes-insert_key k h.0 ns all)

All-self :
    (ks : List Str) → All (λ k. any (λ j. str_eq (trim is_slash j) (trim is_slash k)) ks ≡ true) ks
All-self [] = tt
All-self (x ∷ ks) =
    (ground (arith, str_eq_refl (trim is_slash x)), All-imp (λ k h. ground arith) ks (All-self ks))

-- Every node of a tree is addressed by the keys: a file node has the path of a key, a folder node the
-- path of a folder that a key lies in.
pub build_tree-IsAddressed :
    (ks : List Str) (current_key : Str)
    → AllNodes (IsAddressed ks) (children (build_tree ks current_key))
unfolding build_tree
build_tree-IsAddressed ks current_key =
    let P = IsAddressed ks in
    AllNodes-mark_current P (λ l p. p) (λ l p. p) (trim is_slash current_key)
      (sort_children (insert_keys ks nil))
      (AllNodes-sort_children P (insert_keys ks nil)
        (AllNodes-insert_keys ks ks (All-self ks) nil tt))
