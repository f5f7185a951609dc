-- ===== src/Cli/Walk/Free.antt =====
-- walk.go: the name that `freeName` gives to the root of a text, and what `WalkText` makes of it.
use mathlib.Core.List.{append_cancel_left, append_cancel_right}
use mathlib.Core.Option.{some-injective}
use mdfly.Common.{
  Bool-cases, Option-cases, if_false, length, Str, codes, str_eq, str_eq_iff, ℕ, zero, suc, ◌+◌,
  ◌≤◌, ◌<◌, ◌≡◌, refl, sym, ◌∙◌, subst, inl, inr, false, none, some, [], ◌∷◌, ◌++◌, arith,
}
use mdfly.Common.Dict.{Dict, lookup, erase, lookup-erase, insert}
use mdfly.Common.Decimal.{itoa, itoa-injective}
use mdfly.Cli.Walk.{File, FileSystem, Markdown, Options, Result}
use mdfly.Cli.Walk.Crawl.{
  candidate, free_from, free_name, crawl, new_walker, walk_text, abs, walked, put,
  synthetic_root_base, with_text,
}
use mdfly.View.Resolver.{markdown_ext}

length-erase : (k : Str) (d : Dict File) → length (erase k d) ≤ length d
unfolding erase
length-erase k [] = omega arith
length-erase k ((j, w) ∷ d) = ground (arith, length-erase k d)

erase-shorter :
    (k : Str) (f : File) (d : Dict File) → lookup k d ≡ some f → length (erase k d) < length d
unfolding erase lookup
erase-shorter k f [] h = cc
erase-shorter k f ((j, w) ∷ d) h = elim (Bool-cases (str_eq j k)) [
  | inl t ↦ rw (t, erase) (let shorter = length-erase k d in omega arith)
  | inr n ↦ rw (n, erase) (let shorter = erase-shorter k f d (rw (n, lookup) at h) in omega arith)
]

-- A text is not itself behind a dash and more.
not_behind : (extension more : Str) → extension ≡ (b'-' ∷ more) ++ extension → ⊥
not_behind extension more h =
    absurd (cons_not_nil (append_cancel_right [] (b'-' ∷ more) extension h))
  where
    cons_not_nil : [] ≡ b'-' ∷ more → ⊥
    cons_not_nil e = cc

candidate-injective :
    (stem extension : Str) (i j : ℕ)
    → candidate stem extension i ≡ candidate stem extension j
    → i ≡ j
unfolding candidate
candidate-injective stem extension zero zero h = refl
candidate-injective stem extension zero (suc j) h = absurd (
    not_behind extension (itoa (suc j))
      (append_cancel_left stem extension (codes "-" ++ (itoa (suc j) ++ extension)) h))
candidate-injective stem extension (suc i) zero h = absurd (
    not_behind extension (itoa (suc i))
      (sym (append_cancel_left stem (codes "-" ++ (itoa (suc i) ++ extension)) extension h)))
candidate-injective stem extension (suc i) (suc j) h =
    let behind =
      append_cancel_left stem (codes "-" ++ (itoa (suc i) ++ extension))
        (codes "-" ++ (itoa (suc j) ++ extension)) h in
    itoa-injective (suc i) (suc j) (
      append_cancel_right (itoa (suc i)) (itoa (suc j)) extension (
        append_cancel_left (codes "-") (itoa (suc i) ++ extension) (itoa (suc j) ++ extension)
          behind))

module _ (stem extension : Str) where
  -- A name that is found is free.
  free_from-free :
      (fuel : ℕ) (files : Dict File) (i : ℕ) (key : Str)
      → free_from fuel files stem extension i ≡ some key
      → lookup key files ≡ none
  unfolding free_from
  free_from-free zero files i key h = cc
  free_from-free (suc fuel) files i key h =
      elim (Option-cases (lookup (candidate stem extension i) files)) [
        | inl n ↦
            let same : candidate stem extension i ≡ key =
              some-injective (candidate stem extension i) key (rw (n, free_from) at h) in
            subst (λ k. lookup k files ≡ none) same n
        | inr (f, e) ↦ free_from-free fuel files (i + 1) key (rw (e, free_from) at h)
      ]

  -- A file whose name is not tried any more does not matter.
  free_from-erase :
      (fuel : ℕ) (files : Dict File) (i : ℕ) (taken : Str)
      → ((j : ℕ) → i ≤ j → str_eq taken (candidate stem extension j) ≡ false)
      → free_from fuel (erase taken files) stem extension i ≡ free_from fuel files stem extension i
  unfolding free_from
  free_from-erase zero files i taken h = refl
  free_from-erase (suc fuel) files i taken h =
      let here =
        lookup-erase taken (candidate stem extension i) files
        ∙ if_false none (lookup (candidate stem extension i) files) (h i (omega arith)) in
      let rest = free_from-erase fuel files (i + 1) taken (λ j k. h j (omega arith)) in
      elim (Option-cases (lookup (candidate stem extension i) files)) [
        | inl n ↦ rw (free_from, here, n) refl
        | inr (f, e) ↦ rw (free_from, here, e) rest
      ]

  -- One try more than there are files finds a name.
  free_from-finds :
      (fuel : ℕ) (files : Dict File) (i : ℕ)
      → length files < fuel
      → (key : Str) × (free_from fuel files stem extension i ≡ some key)
  unfolding free_from
  free_from-finds zero files i h = absurd (omega arith)
  free_from-finds (suc fuel) files i h =
      elim (Option-cases (lookup (candidate stem extension i) files)) [
        | inl n ↦ (candidate stem extension i, rw (n, free_from) refl)
        | inr (f, e) ↦
            let taken = candidate stem extension i in
            let fewer = erase-shorter taken f files e in
            let (key, found_it) = free_from-finds fuel (erase taken files) (i + 1) (omega arith) in
            let same =
              free_from-erase fuel files (i + 1) taken (λ j k. candidate-apart i j (omega arith)) in
            (key, rw (e, free_from) (sym same ∙ found_it))
      ]
    where
      candidate-apart :
          (i j : ℕ)
          → i < j
          → str_eq (candidate stem extension i) (candidate stem extension j) ≡ false
      candidate-apart i j h =
          elim (Bool-cases (str_eq (candidate stem extension i) (candidate stem extension j))) [
            | inr f ↦ f
            | inl t ↦
                let same =
                  candidate-injective stem extension i j
                    ((str_eq_iff (candidate stem extension i) (candidate stem extension j)).0 t) in
                absurd (omega arith)
          ]

-- `WalkText` ends where its crawl does: its root is the text, under a name that no file has, and the
-- crawl's files stay as they are.
pub walk_text-crawl :
    (fs : FileSystem) (md : Markdown) (fuel : ℕ) (here content cwd : Str) (opts : Options)
    (files : Dict File)
    → crawl fs md fuel (new_walker fs md (abs here cwd) opts) (abs here cwd) content [] ≡ some files
    → (r : Result) × ((walk_text fs md fuel here content cwd opts ≡ walked r)
        × ((lookup r.root_path files ≡ none)
            × (r.files
                ≡ insert r.root_path
                    (record { logical_path = r.root_path; disk_path = []; content = content })
                    files)))
unfolding walk_text with_text free_name put
walk_text-crawl fs md fuel here content cwd opts files h =
    let (key, found_it) =
      free_from-finds synthetic_root_base markdown_ext (suc (length files)) files 0 (omega arith) in
    let free =
      free_from-free synthetic_root_base markdown_ext (suc (length files)) files 0 key found_it in
    (
      record {
        root_path = key;
        project_root = abs here cwd;
        files = insert key (record { logical_path = key; disk_path = []; content = content }) files;
      },
      (rw (walk_text, h, with_text, free_name, found_it) refl, (free, refl)),
    )
