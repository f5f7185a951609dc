-- ===== src/Cli/Walk/Inside.antt =====
-- The paths that a crawl reaches are absolute and do not escape the project root.
use mdfly.Common.{
  if◌then◌else◌, Bool-cases, Option-cases, if_true, if_false, Str, is_empty, has_byte, ℕ, ◌≡◌, refl,
  sym, subst, inl, inr, Bool, true, false, not, ◌&&◌, Option, none, some, List, [], ◌∷◌, ◌++◌,
  arith,
}
use mdfly.Common.Paths.{clean, is_abs, dir_of, up_to_slash, join_paths}
use mdfly.Common.Split.{join}
use mdfly.Common.Members.{among, among-head}
use mdfly.Cli.Walk.{
  Mode, regular, directory, irregular, FileSystem, Markdown, escapes_root, resolved,
  resolve_in_root, resolve_all, targets, dir_targets, target_of, local_refs, is_markdown,
}
use mdfly.Cli.Walk.Crawl.{Walker, visit, visit_file}
use mdfly.Cli.Walk.Reached.{Reached}
use mdfly.Cli.Walk.Within.{clean-is_abs}

up_to_slash-is_abs : (p : Str) → is_abs p ≡ true → is_abs (up_to_slash p) ≡ true
unfolding up_to_slash is_abs has_byte
up_to_slash-is_abs [] h = cc
up_to_slash-is_abs (c ∷ s) h = ground arith

pub dir_of-is_abs : (p : Str) → is_abs p ≡ true → is_abs (dir_of p) ≡ true
unfolding dir_of
dir_of-is_abs p h = clean-is_abs (up_to_slash p) (up_to_slash-is_abs p h)

join-is_abs :
    (c : ℕ) (s : Str) (l : List Str)
    → is_abs (c ∷ s) ≡ true
    → is_abs (join b'/' ((c ∷ s) ∷ l)) ≡ true
unfolding join is_abs
join-is_abs c s [] h = h
join-is_abs c s (x ∷ l) h = h

pub joined-is_abs :
    (folder ref : Str) → is_abs folder ≡ true → is_abs (join_paths (folder ∷ ref ∷ [])) ≡ true
unfolding join_paths is_abs
joined-is_abs [] ref h = cc
joined-is_abs (c ∷ s) ref h =
    let rest : List Str = if not (is_empty ref) then ref ∷ [] else [] in
    clean-is_abs (join b'/' ((c ∷ s) ∷ rest)) (join-is_abs c s rest h)

target_of-is_abs : (folder ref : Str) → is_abs folder ≡ true → is_abs (target_of folder ref) ≡ true
unfolding target_of
target_of-is_abs folder ref h = elim (Bool-cases (is_abs ref)) [
  | inl t ↦
      subst (λ x. is_abs x ≡ true)
        (sym (if_true (clean ref) (clean (join_paths (folder ∷ ref ∷ []))) t)) (clean-is_abs ref t)
  | inr f ↦
      subst (λ x. is_abs x ≡ true)
        (sym (if_false (clean ref) (clean (join_paths (folder ∷ ref ∷ []))) f))
        (clean-is_abs (join_paths (folder ∷ ref ∷ [])) (joined-is_abs folder ref h))
]

module _ (fs : FileSystem)
    (keeps_abs : (path real : Str)
      → fs.eval_symlinks path ≡ some real
      → is_abs path ≡ true
      → is_abs real ≡ true) where
  pub resolved-is_abs : (path : Str) → is_abs path ≡ true → is_abs (resolved fs path) ≡ true
  unfolding resolved
  resolved-is_abs path h = elim (Option-cases (fs.eval_symlinks path)) [
    | inl n ↦ rw (n, resolved) h
    | inr (real, e) ↦ rw (e, resolved) (keeps_abs path real e h)
  ]

  abbrev pub IsInside : Str → Str → Type 0
  IsInside root_real path =
      (is_abs path ≡ true) × (escapes_root root_real (resolved fs path) ≡ false)

  resolve_all-IsInside :
      (root_real folder : Str) (refs : List Str) (t : Str)
      → is_abs folder ≡ true
      → among (resolve_all fs root_real folder refs) t ≡ true
      → IsInside root_real t
  unfolding resolve_all resolve_in_root
  resolve_all-IsInside root_real folder [] t a m = cc
  resolve_all-IsInside root_real folder (ref ∷ refs) t a m =
      elim (Bool-cases (escapes_root root_real (resolved fs (target_of folder ref)))) [
        | inl out ↦ resolve_all-IsInside root_real folder refs t a (rw (out, resolve_all) at m)
        | inr stays ↦
            elim (among-head (target_of folder ref) t (resolve_all fs root_real folder refs)
              (rw (stays, resolve_all) at m)) [
                | inl e ↦ subst (IsInside root_real) (sym e) (target_of-is_abs folder ref a, stays)
                | inr later ↦ resolve_all-IsInside root_real folder refs t a later
              ]
      ]

  dir_targets-IsInside :
      (root_real : Str) (recursive : Bool) (folder t : Str)
      → is_abs folder ≡ true
      → among (dir_targets fs root_real recursive folder) t ≡ true
      → IsInside root_real t
  unfolding dir_targets
  dir_targets-IsInside root_real false folder t a m = cc
  dir_targets-IsInside root_real true folder t a m = elim (Option-cases (fs.read_dir folder)) [
    | inl n ↦ let no = rw (n, dir_targets) at m in cc
    | inr (entries, e) ↦
        resolve_all-IsInside root_real folder entries t a (rw (e, dir_targets) at m)
  ]

  module _ (md : Markdown) (w : Walker) where
    targets-IsInside :
        (folder content t : Str)
        → is_abs folder ≡ true
        → among (targets fs md w.root_real folder content) t ≡ true
        → IsInside w.root_real t
    unfolding targets
    targets-IsInside folder content t a m =
        resolve_all-IsInside w.root_real folder
          (local_refs ((md.image_refs content ++ md.link_refs content) ++ md.html_refs content)) t a
          m

    visit_file-IsInside :
        (c t : Str)
        → is_abs c ≡ true
        → among (visit_file fs md w c).1 t ≡ true
        → IsInside w.root_real t
    unfolding visit_file targets
    visit_file-IsInside c t a m = elim (Bool-cases (is_markdown c && not w.recursive)) [
      | inl out ↦ let no = rw (out, visit_file) at m in cc
      | inr goes ↦ elim (Option-cases (fs.read_file c)) [
        | inl n ↦ let no = rw (goes, n, visit_file) at m in cc
        | inr (content, e) ↦ elim (Bool-cases (is_markdown c)) [
          | inl page ↦
              targets-IsInside (dir_of c) content t (dir_of-is_abs c a)
                (rw (goes, e, page, visit_file) at m)
          | inr f ↦ let no = rw (goes, e, f, visit_file) at m in cc
        ]
      ]
    ]

    visit-IsInside :
        (c t : Str) → is_abs c ≡ true → among (visit fs md w c).1 t ≡ true → IsInside w.root_real t
    unfolding visit
    visit-IsInside c t a m = by_mode (fs.stat c) refl
      where
        by_mode : (o : Option Mode) → fs.stat c ≡ o → IsInside w.root_real t
        by_mode none e = let no = rw (e, visit) at m in cc
        by_mode (some directory) e =
            dir_targets-IsInside w.root_real w.recursive c t a (rw (e, visit) at m)
        by_mode (some irregular) e = let no = rw (e, visit) at m in cc
        by_mode (some regular) e = visit_file-IsInside c t a (rw (e, visit) at m)

    pub Reached-IsInside :
        (seed_dir content : Str)
        → is_abs seed_dir ≡ true
        → (t : Str) → Reached fs md w (targets fs md w.root_real seed_dir content) t
        → IsInside w.root_real t
    Reached-IsInside seed_dir content a _ (Reached.seed t m) =
        targets-IsInside seed_dir content t a m
    Reached-IsInside seed_dir content a _ (Reached.further c t r m) =
        visit-IsInside c t (Reached-IsInside seed_dir content a c r).0 m
