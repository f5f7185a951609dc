-- ===== src/Cli/Walk/Publishes.antt =====
-- Which files a walk puts into a bundle beside the root: none from outside of the project root, and no
-- Markdown but under -r.
use mathlib.Core.Option.{some-injective}
use mdfly.Common.{
  Bool-cases, Option-cases, if_true, if_false, Str, str_eq, ℕ, ◌≡◌, refl, sym, ap, subst, ◌⊎◌, inl,
  inr, Bool, true, not, ◌&&◌, Option, none, some, [], ◌∷◌, arith,
}
use mdfly.Common.Dict.{Dict, insert, lookup}
use mdfly.Common.Paths.{clean, is_abs, dir_of, join_paths}
use mdfly.Cli.Walk.{
  Mode, regular, directory, irregular, FileSystem, Markdown, File, Result, Options, resolved,
  is_markdown,
}
use mdfly.Cli.Walk.Crawl.{
  Walker, visit, visit_file, crawl, new_walker, walk, walked, as_walked, abs, put, root_file,
  root_files,
}
use mdfly.Cli.Walk.Gathers.{crawl-end}
use mdfly.Cli.Walk.Within.{IsUnder, escapes_root-IsUnder, clean-is_abs}
use mdfly.Cli.Walk.Inside.{dir_of-is_abs, joined-is_abs, resolved-is_abs, Reached-IsInside}

module _ (fs : FileSystem) (md : Markdown) (w : Walker) where
  -- The file of a path is read from there, and is no Markdown but under -r.
  abbrev IsFileOf : Str → File → Type 0
  IsFileOf c f = (f.disk_path ≡ c) × (is_markdown c ≡ true → w.recursive ≡ true)

  visit_file-IsFileOf : (c : Str) (f : File) → (visit_file fs md w c).0 ≡ some f → IsFileOf c f
  unfolding visit_file
  visit_file-IsFileOf c f h = elim (Bool-cases (is_markdown c && not w.recursive)) [
    | inl out ↦ let no = rw (out, visit_file) at h in cc
    | inr goes ↦ elim (Option-cases (fs.read_file c)) [
      | inl n ↦ let no = rw (goes, n, visit_file) at h in cc
      | inr (content, e) ↦
          let same = some-injective _ f (rw (goes, e, visit_file) at h) in
          (ap (λ x. x.disk_path) (sym same), λ page. ground arith)
    ]
  ]

  visit-IsFileOf : (c : Str) (f : File) → (visit fs md w c).0 ≡ some f → IsFileOf c f
  unfolding visit
  visit-IsFileOf c f h = by_mode (fs.stat c) refl
    where
      by_mode : (o : Option Mode) → fs.stat c ≡ o → IsFileOf c f
      by_mode none e = let no = rw (e, visit) at h in cc
      by_mode (some directory) e = let no = rw (e, visit) at h in cc
      by_mode (some irregular) e = let no = rw (e, visit) at h in cc
      by_mode (some regular) e = visit_file-IsFileOf c f (rw (e, visit) at h)

-- What stands in a bundle beside the root file.
abbrev pub MayPublish : FileSystem → Str → Bool → Str → Type 0
MayPublish fs project_root recursive path =
    IsUnder (resolved fs project_root) (resolved fs path)
    × (is_markdown path ≡ true → recursive ≡ true)

root_file-alone :
    (abs_root content key : Str) (f : File)
    → lookup key (put (some (root_file abs_root content)) []) ≡ some f
    → f.disk_path ≡ abs_root
unfolding put root_file lookup insert
root_file-alone abs_root content key f l =
    elim (Bool-cases (str_eq (root_file abs_root content).logical_path key)) [
      | inl t ↦
          ap (λ x. x.disk_path) (sym (some-injective (root_file abs_root content) f (rw t at l)))
      | inr n ↦ let no = rw n at l in cc
    ]

as_walked-walked :
    (root_path project_root : Str) (o : Option (Dict File)) (r : Result)
    → as_walked root_path project_root o ≡ walked r
    → (o ≡ some r.files) × (project_root ≡ r.project_root)
unfolding as_walked
as_walked-walked root_path project_root none r h = cc
as_walked-walked root_path project_root (some files) r h =
    let same : record { root_path = root_path; project_root = project_root; files = files } ≡ r =
      cc in
    (ap (λ x. some x.files) same, ap (λ x. x.project_root) same)

module _ (fs : FileSystem) (md : Markdown)
    (keeps_abs : (path real : Str)
      → fs.eval_symlinks path ≡ some real
      → is_abs path ≡ true
      → is_abs real ≡ true) where
  crawl-MayPublish :
      (fuel : ℕ) (opts : Options) (root seed_dir content : Str) (start end : Dict File)
      → is_abs root ≡ true
      → is_abs seed_dir ≡ true
      → crawl fs md fuel (new_walker fs md root opts) seed_dir content start ≡ some end
      → (key : Str) (f : File) → lookup key end ≡ some f
      → (lookup key start ≡ some f) ⊎ MayPublish fs root opts.recursive f.disk_path
  unfolding new_walker
  crawl-MayPublish fuel opts root seed_dir content start end a b e key f l =
      let w = new_walker fs md root opts in
      elim ((crawl-end fs md fuel w seed_dir content start end e).0 key f l) [
        | inl old ↦ inl old
        | inr (c, (r, (v, k))) ↦
            let (at_c, plain) = visit-IsFileOf fs md w c f v in
            let (c_abs, stays) = Reached-IsInside fs keeps_abs md w seed_dir content b c r in
            let under =
              escapes_root-IsUnder (resolved fs root) (resolved fs c)
                (resolved-is_abs fs keeps_abs root a) (resolved-is_abs fs keeps_abs c c_abs)
                stays in
            inr (subst (MayPublish fs root opts.recursive) (sym at_c) (under, plain))
      ]

  abs-is_abs : (cwd path : Str) → is_abs cwd ≡ true → is_abs (abs cwd path) ≡ true
  unfolding abs
  abs-is_abs cwd path h = elim (Bool-cases (is_abs path)) [
    | inl t ↦
        subst (λ x. is_abs x ≡ true) (sym (if_true (clean path) (join_paths (cwd ∷ path ∷ [])) t))
          (clean-is_abs path t)
    | inr f ↦
        subst (λ x. is_abs x ≡ true) (sym (if_false (clean path) (join_paths (cwd ∷ path ∷ [])) f))
          (joined-is_abs cwd path h)
  ]

  root_files-MayPublish :
      (fuel : ℕ) (opts : Options) (abs_root content : Str) (end : Dict File)
      → is_abs abs_root ≡ true
      → root_files fs md fuel opts abs_root content ≡ some end
      → (key : Str) (f : File) → lookup key end ≡ some f
      → (f.disk_path ≡ abs_root) ⊎ MayPublish fs (dir_of abs_root) opts.recursive f.disk_path
  unfolding root_files
  root_files-MayPublish fuel opts abs_root content end a e key f l =
      let start = put (some (root_file abs_root content)) [] in
      let d = dir_of-is_abs abs_root a in
      elim (Bool-cases (is_markdown abs_root)) [
        | inl page ↦
            elim (crawl-MayPublish fuel opts (dir_of abs_root) (dir_of abs_root) content start end d
              d (rw (page, root_files) at e) key f l) [
                | inl old ↦ inl (root_file-alone abs_root content key f old)
                | inr may ↦ inr may
              ]
        | inr plain ↦
            let same = some-injective start end (rw (plain, root_files) at e) in
            inl (
              root_file-alone abs_root content key f
                (subst (λ x. lookup key x ≡ some f) (sym same) l))
      ]

  -- Every file of a walk is the root file, or stands at or under the project root, as its symlinks are
  -- resolved, and is no Markdown but under -r; if resolving the symlinks of an absolute path gives an
  -- absolute one, and the working directory is absolute.
  pub walk-MayPublish :
      (fuel : ℕ) (cwd root_path : Str) (opts : Options) (r : Result)
      → is_abs cwd ≡ true
      → walk fs md fuel cwd root_path opts ≡ walked r
      → (key : Str) (f : File) → lookup key r.files ≡ some f
      → (f.disk_path ≡ abs cwd root_path) ⊎ MayPublish fs r.project_root opts.recursive f.disk_path
  unfolding walk
  walk-MayPublish fuel cwd root_path opts r a h key f l =
      let abs_root = abs cwd root_path in
      let top = abs-is_abs cwd root_path a in
      elim (Option-cases (fs.read_file abs_root)) [
        | inl n ↦ let no = rw (n, walk) at h in cc
        | inr (content, e) ↦
            let (gathered, at_root) =
              as_walked-walked (root_file abs_root content).logical_path (dir_of abs_root)
                (root_files fs md fuel opts abs_root content) r (rw (e, walk) at h) in
            subst (λ p. (f.disk_path ≡ abs_root) ⊎ MayPublish fs p opts.recursive f.disk_path)
              at_root
              (root_files-MayPublish fuel opts abs_root content r.files top gathered key f l)
      ]
