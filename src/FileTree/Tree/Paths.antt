-- ===== src/FileTree/Tree/Paths.antt =====
-- A tree shows every key: what the steps of building keep.
use mdfly.Common.{
  if◌then◌else◌, Bool-cases, Str, str_eq_iff, ◌≡◌, refl, sym, ◌∙◌, subst, inl, inr, Bool, true,
  false, ◌||◌, List, [], ◌∷◌, ◌++◌, arith,
}
use mdfly.Common.Split.{join}
use mdfly.FileTree.Tree.{
  Label, Nodes, node, nil, cons, is_child, descend, node_less, insert_node, sort_children,
  update_child,
}

abbrev pub any_node : (Label → Bool) → Nodes → Bool
any_node p nil = false
any_node p (cons (node l cs) ns) = p l || (any_node p cs || any_node p ns)

-- The nodes below the folder of the segments `done` have the path that their name gives there.
abbrev pub IsPlaced : List Str → Nodes → Type 0
IsPlaced done nil = Unit
IsPlaced done (cons (node l cs) ns) =
    (l.path ≡ join b'/' (done ++ (l.name ∷ [])))
    × (IsPlaced (done ++ (l.name ∷ [])) cs × IsPlaced done ns)

pub or_last : (a b : Bool) → (a || (b || true)) ≡ true
or_last a b = ground arith

or_mid : (a c : Bool) → (a || (true || c)) ≡ true
or_mid a c = ground arith

or_imp :
    (a b c b' c' : Bool)
    → (b ≡ true → b' ≡ true)
    → (c ≡ true → c' ≡ true)
    → (a || (b || c)) ≡ true
    → (a || (b' || c')) ≡ true
or_imp a b c b' c' f g h = ground arith

or_swap : (a b c d e : Bool) → (a || (b || (c || (d || e)))) ≡ (c || (d || (a || (b || e))))
or_swap a b c d e = ground arith

pub is_child-name :
    (name : Str) (folder : Bool) (l : Label)
    → is_child name folder l ≡ true
    → (l.name ≡ name) × (l.is_dir ≡ folder)
unfolding is_child
is_child-name name true l h = ground (arith, str_eq_iff l.name name)
is_child-name name false l h = ground (arith, str_eq_iff l.name name)

module _ (done : List Str) (name : Str) (folder : Bool) (go : Nodes → Nodes) where
  abbrev at_name : List Str
  at_name = done ++ (name ∷ [])

  pub IsPlaced-descend :
      ((cs : Nodes) → IsPlaced at_name cs → IsPlaced at_name (go cs))
      → (ns : Nodes) → IsPlaced done ns
      → IsPlaced done (descend name (join b'/' at_name) folder go ns)
  unfolding descend
  IsPlaced-descend h nil at = (refl, (h nil tt, tt))
  IsPlaced-descend h (cons (node l cs) ns) at = elim (Bool-cases (is_child name folder l)) [
    | inl t ↦
        let n = (is_child-name name folder l t).0 in
        rw (t, descend)
          (
            at.0,
            (
              subst (λ m. IsPlaced (done ++ (m ∷ [])) (go cs)) (sym n)
                  (h cs (subst (λ m. IsPlaced (done ++ (m ∷ [])) cs) n at.1.0)),
              at.1.1,
            ),
          )
    | inr f ↦ rw (f, descend) (at.0, (at.1.0, IsPlaced-descend h ns at.1.1))
  ]

  module _ (p : Label → Bool) where
    any-descend :
        (path : Str) (l : Label) (cs ns : Nodes)
        → any_node p (descend name path folder go (cons (node l cs) ns)) ≡ (
            if is_child name folder l
            then p l || (any_node p (go cs) || any_node p ns)
            else p l || (any_node p cs || any_node p (descend name path folder go ns)))
    unfolding descend
    any-descend path l cs ns = elim (Bool-cases (is_child name folder l)) [
      | inl t ↦ rw (t, descend) refl
      | inr f ↦ rw (f, descend) refl
    ]

    any-descend-nil :
        (path : Str)
        → any_node p (go nil) ≡ true
        → any_node p (descend name path folder go nil) ≡ true
    unfolding descend
    any-descend-nil path h = ground arith

    -- What is shown stays shown.
    pub descend_keeps :
        ((cs : Nodes) → any_node p cs ≡ true → any_node p (go cs) ≡ true)
        → (path : Str) (ns : Nodes) → any_node p ns ≡ true
        → any_node p (descend name path folder go ns) ≡ true
    descend_keeps h path nil s = cc
    descend_keeps h path (cons (node l cs) ns) s = elim (Bool-cases (is_child name folder l)) [
      | inl t ↦
          rw (any-descend path l cs ns, t)
            (or_imp (p l) (any_node p cs) (any_node p ns) (any_node p (go cs)) (any_node p ns)
              (h cs) (λ e. e) s)
      | inr f ↦
          rw (any-descend path l cs ns, f)
            (or_imp (p l) (any_node p cs) (any_node p ns) (any_node p cs)
              (any_node p (descend name path folder go ns)) (λ e. e) (descend_keeps h path ns) s)
    ]

    -- What the rest of the way shows is shown.
    pub descend_shows :
        ((cs : Nodes) → IsPlaced at_name cs → any_node p (go cs) ≡ true)
        → (path : Str) (ns : Nodes) → IsPlaced done ns
        → any_node p (descend name path folder go ns) ≡ true
    descend_shows h path nil at = any-descend-nil path (h nil tt)
    descend_shows h path (cons (node l cs) ns) at = elim (Bool-cases (is_child name folder l)) [
      | inl t ↦
          let n = (is_child-name name folder l t).0 in
          let below = h cs (subst (λ m. IsPlaced (done ++ (m ∷ [])) cs) n at.1.0) in
          rw (any-descend path l cs ns, t, below) (or_mid (p l) (any_node p ns))
      | inr f ↦
          rw (any-descend path l cs ns, f, descend_shows h path ns at.1.1)
            (or_last (p l) (any_node p cs))
    ]

module _ (p : Label → Bool) where
  any-insert_node :
      (l : Label) (cs ns : Nodes)
      → any_node p (insert_node l cs ns) ≡ (p l || (any_node p cs || any_node p ns))
  unfolding insert_node
  any-insert_node l cs nil = refl
  any-insert_node l cs (cons (node m ds) ns) = elim (Bool-cases (node_less m l)) [
    | inl t ↦
        rw (t, insert_node, any-insert_node l cs ns)
          (or_swap (p m) (any_node p ds) (p l) (any_node p cs) (any_node p ns))
    | inr f ↦ rw (f, insert_node) refl
  ]

  pub any-sort_children : (ns : Nodes) → any_node p (sort_children ns) ≡ any_node p ns
  unfolding sort_children
  any-sort_children nil = refl
  any-sort_children (cons (node l cs) ns) =
      any-insert_node l (sort_children cs) (sort_children ns)
      ∙ rw (any-sort_children cs, any-sort_children ns) refl

  pub any-update_child :
      (name : Str) (folder : Bool) (f : Label → Label) (go : Nodes → Nodes)
      → ((l : Label) → p (f l) ≡ p l)
      → ((cs : Nodes) → any_node p (go cs) ≡ any_node p cs)
      → (ns : Nodes) → any_node p (update_child name folder f go ns) ≡ any_node p ns
  unfolding update_child
  any-update_child name folder f go same h nil = refl
  any-update_child name folder f go same h (cons (node l cs) ns) =
      elim (Bool-cases (is_child name folder l)) [
        | inl t ↦ rw (t, update_child, same l, h cs) refl
        | inr g ↦ rw (g, update_child, any-update_child name folder f go same h ns) refl
      ]
