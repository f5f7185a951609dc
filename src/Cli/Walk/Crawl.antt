-- ===== src/Cli/Walk/Crawl.antt =====
-- walk.go: `crawl`, and `Walk` and `WalkText` on top of it.
use mdfly.Common.{
  if◌then◌else◌, length, Str, codes, ℕ, zero, suc, ◌+◌, Bool, true, false, not, ◌&&◌, Option, none,
  some, List, [], ◌∷◌, ◌++◌,
}
use mdfly.Common.Dict.{Dict, insert, lookup}
use mdfly.Common.Paths.{clean, is_abs, join_paths, dir_of, base}
use mdfly.Common.Members.{among}
use mdfly.Common.Decimal.{itoa}
use mdfly.View.Resolver.{markdown_ext}
use mdfly.Cli.Walk.{
  regular, directory, irregular, FileSystem, Markdown, File, Result, Options, is_markdown, rel_key,
  dir_targets, targets, resolved,
}

-- The fields of the walker that stay; what changes, `files` and `visited`, is passed along.
pub record Walker : Type 0 where
  pub project_root : Str
  pub root_real : Str
  pub recursive : Bool

unfoldable pub put : Option File → Dict File → Dict File
unfolding insert
put none files = files
put (some f) files = insert f.logical_path f files

-- The root file of a walk, by its absolute path.
unfoldable pub root_file : Str → Str → File
unfolding rel_key dir_of
root_file abs_root content = record {
  logical_path = rel_key (dir_of abs_root) abs_root;
  disk_path = abs_root;
  content = content;
}

module _ (fs : FileSystem) (md : Markdown) where
  unfoldable pub new_walker : Str → Options → Walker
  unfolding resolved
  new_walker project_root opts = record {
    project_root = project_root;
    root_real = resolved fs project_root;
    recursive = opts.recursive;
  }

  -- A regular file of the queue: what is read of it, and what it refers to.
  unfoldable pub visit_file : Walker → Str → Option File × List Str
  unfolding is_markdown rel_key targets dir_of
  visit_file w cur =
      if is_markdown cur && not w.recursive then (none, []) else elim (fs.read_file cur) [
        | none ↦ (none, [])
        | some content ↦ (
          some (record {
            logical_path = rel_key w.project_root cur;
            disk_path = cur;
            content = content;
          }),
          if is_markdown cur then targets fs md w.root_real (dir_of cur) content else [],
        )
      ]

  -- A path of the queue that was not visited yet: the file it adds, and the paths it queues.
  unfoldable pub visit : Walker → Str → Option File × List Str
  unfolding visit_file dir_targets
  visit w cur = elim (fs.stat cur) [
    | none ↦ (none, [])
    | some directory ↦ (none, dir_targets fs w.root_real w.recursive cur)
    | some irregular ↦ (none, [])
    | some regular ↦ visit_file w cur
  ]

  -- The loop over the queue; `none` if the fuel does not suffice.
  unfoldable pub crawl_from : ℕ → Walker → List Str → List Str → Dict File → Option (Dict File)
  unfolding visit put
  crawl_from fuel w [] visited files = some files
  crawl_from zero w (cur ∷ queue) visited files = none
  crawl_from (suc fuel) w (cur ∷ queue) visited files = elim (among visited cur) [
    | true ↦ crawl_from fuel w queue visited files
    | false ↦
        let (added, more) = visit w cur in
        crawl_from fuel w (queue ++ more) (cur ∷ visited) (put added files)
  ]

  unfoldable pub crawl : ℕ → Walker → Str → Str → Dict File → Option (Dict File)
  unfolding targets crawl_from
  crawl fuel w seed_dir seed_content files =
      crawl_from fuel w (targets fs md w.root_real seed_dir seed_content) [] files

  -- The files of a walk of it.
  unfoldable pub root_files : ℕ → Options → Str → Str → Option (Dict File)
  unfolding new_walker is_markdown root_file put dir_of crawl
  root_files fuel opts abs_root content =
      let start = put (some (root_file abs_root content)) [] in
      let crawled =
        crawl fuel (new_walker (dir_of abs_root) opts) (dir_of abs_root) content start in
      if is_markdown abs_root then crawled else some start

-- `filepath.Abs` in a working directory that is known.
unfoldable pub abs : Str → Str → Str
unfolding is_abs clean join_paths
abs cwd path = if is_abs path then clean path else join_paths (cwd ∷ path ∷ [])

-- The outcome of `Walk`; `running` stands for fuel that does not suffice.
pub data Walked : Type 0 where
  running read_failed : Walked
  walked : Result → Walked

unfoldable pub as_walked : Str → Str → Option (Dict File) → Walked
as_walked root_path project_root none = running
as_walked root_path project_root (some files) =
    walked (record { root_path = root_path; project_root = project_root; files = files })

-- `Walk`
unfoldable pub walk : FileSystem → Markdown → ℕ → Str → Str → Options → Walked
unfolding abs root_files root_file as_walked dir_of
walk fs md fuel cwd root_path opts =
    let abs_root = abs cwd root_path in
    elim (fs.read_file abs_root) [
      | none ↦ read_failed
      | some content ↦
          as_walked (root_file abs_root content).logical_path (dir_of abs_root)
            (root_files fs md fuel opts abs_root content)
    ]

-- The names that `freeName` tries: the i-th, for i > 0, is base-i with the extension.
unfoldable pub candidate : Str → Str → ℕ → Str
unfolding itoa
candidate base extension zero = base ++ extension
candidate base extension (suc i) = base ++ (codes "-" ++ (itoa (suc i) ++ extension))

unfoldable pub free_from : ℕ → Dict File → Str → Str → ℕ → Option Str
unfolding lookup candidate
free_from zero files base extension i = none
free_from (suc fuel) files base extension i =
    let rest = free_from fuel files base extension (i + 1) in
    elim (lookup (candidate base extension i) files) [
      | none ↦ some (candidate base extension i)
      | some _ ↦ rest
    ]

-- `freeName`: one try more than there are files is enough.
unfoldable pub free_name : Dict File → Str → Str → Option Str
unfolding free_from
free_name files base extension = free_from (suc (length files)) files base extension 0

abbrev pub synthetic_root_base : Str
synthetic_root_base = codes "index"

-- A text with the files that it refers to, under a free name.
unfoldable pub with_text : Str → Str → Option (Dict File) → Walked
unfolding free_name put as_walked
with_text project_root content none = running
with_text project_root content (some files) =
    elim (free_name files synthetic_root_base markdown_ext) [
      | none ↦ running
      | some key ↦
          let root : File = record { logical_path = key; disk_path = []; content = content } in
          as_walked key project_root (some (put (some root) files))
    ]

-- `WalkText`; `here` is the working directory.
unfoldable pub walk_text : FileSystem → Markdown → ℕ → Str → Str → Str → Options → Walked
unfolding new_walker crawl with_text abs
walk_text fs md fuel here content cwd opts =
    let root = abs here cwd in
    with_text root content (crawl fs md fuel (new_walker fs md root opts) root content [])
