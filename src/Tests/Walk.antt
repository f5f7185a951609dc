-- ===== src/Tests/Walk.antt =====
-- A walk over a small project, and the theorems at it.
use mathlib.Core.Option.{some-injective}
use mdfly.Common.{
  if◌then◌else◌, length, Str, codes, str_eq, ◌+◌, ◌≡◌, refl, sym, subst, ◌⊎◌, inl, inr, Bool, true,
  false, ◌&&◌, Option, none, some, List, [], ◌∷◌, arith,
}
use mdfly.Common.Dict.{Dict, lookup}
use mdfly.Common.Split.{split}
use mdfly.Common.Paths.{is_abs}
use mdfly.Common.Members.{among, among-head}
use mdfly.Cli.Walk.{Mode, regular, directory, FileSystem, Markdown, File, Result, Options, targets}
use mdfly.Cli.Walk.Crawl.{Walker, visit, walk, walked, crawl, abs, walk_text}
use mdfly.Cli.Walk.Gathers.{open_weight, crawl_gathers}
use mdfly.Cli.Walk.Reached.{IsGathered, IsWhole}
use mdfly.Cli.Walk.Publishes.{MayPublish, walk-MayPublish}

-- /p/a.md refers to a picture, to /p/b.md, to a file outside and to a site; /p/b.md to /p/a.md and to
-- the folder /p/d.
abbrev disk : Dict Str
disk =
    (codes "/p/a.md", codes "i.png,b.md#s,../x.png,http://e/y")
    ∷ (codes "/p/b.md", codes "a.md,d")
    ∷ (codes "/p/i.png", codes "PNG")
    ∷ (codes "/p/d/t.txt", codes "text")
    ∷ (codes "/x.png", codes "secret")
    ∷ []

abbrev is_file : Option Str → Option Mode
is_file none = none
is_file (some _) = some regular

abbrev project : FileSystem
project = record {
  stat = λ p. if str_eq p (codes "/p/d") then some directory else is_file (lookup p disk);
  read_file = λ p. lookup p disk;
  read_dir = λ p. if str_eq p (codes "/p/d") then some (codes "t.txt" ∷ []) else none;
  eval_symlinks = λ p. some p;
}

abbrev commas : Markdown
commas = record { image_refs = λ c. split b',' c; link_refs = λ _. []; html_refs = λ _. [] }

project_keeps_abs :
    (path real : Str)
    → project.eval_symlinks path ≡ some real
    → is_abs path ≡ true
    → is_abs real ≡ true
project_keeps_abs path real e h = subst (λ x. is_abs x ≡ true) (some-injective path real e) h

abbrev followed : Options
followed = record { recursive = true }

abbrev page_a : File
page_a = record {
  logical_path = codes "a.md";
  disk_path = codes "/p/a.md";
  content = codes "i.png,b.md#s,../x.png,http://e/y";
}

abbrev page_b : File
page_b = record {
  logical_path = codes "b.md";
  disk_path = codes "/p/b.md";
  content = codes "a.md,d";
}

abbrev picture : File
picture = record {
  logical_path = codes "i.png";
  disk_path = codes "/p/i.png";
  content = codes "PNG";
}

abbrev note : File
note = record {
  logical_path = codes "d/t.txt";
  disk_path = codes "/p/d/t.txt";
  content = codes "text";
}

abbrev found_all : Result
found_all = record {
  root_path = codes "a.md";
  project_root = codes "/p";
  files =
      (codes "a.md", page_a)
      ∷ (codes "i.png", picture)
      ∷ (codes "b.md", page_b)
      ∷ (codes "d/t.txt", note)
      ∷ [];
}

linked_page : walk project commas 10 (codes "/p") (codes "a.md") followed ≡ walked found_all
unfolding walk lookup split
linked_page = refl

text_root :
    walk_text project commas 10 (codes "/p") (codes "i.png") [] followed
    ≡ walked (record {
      root_path = codes "index.md";
      project_root = codes "/p";
      files =
          (codes "i.png", picture)
          ∷ (
            codes "index.md",
            record { logical_path = codes "index.md"; disk_path = []; content = codes "i.png" },
          )
          ∷ [];
    })
unfolding walk_text lookup split
text_root = refl

walk_not_followed :
    walk project commas 10 (codes "/") (codes "p/a.md") (record { recursive = false })
    ≡ walked (record {
      root_path = codes "a.md";
      project_root = codes "/p";
      files = (codes "a.md", page_a) ∷ (codes "i.png", picture) ∷ [];
    })
unfolding walk lookup split
walk_not_followed = refl

walk-MayPublish_example :
    (picture.disk_path ≡ abs (codes "/p") (codes "a.md"))
    ⊎ MayPublish project (codes "/p") true picture.disk_path
unfolding lookup is_abs str_eq
walk-MayPublish_example =
    walk-MayPublish project commas project_keeps_abs 10 (codes "/p") (codes "a.md") followed
      found_all refl linked_page (codes "i.png") picture refl

included : List Str → List Str → Bool
included [] all = true
included (x ∷ xs) all = among all x && included xs all

included-among :
    (xs all : List Str) (t : Str) → included xs all ≡ true → among xs t ≡ true → among all t ≡ true
unfolding included
included-among [] all t h m = cc
included-among (x ∷ xs) all t h m = elim (among-head x t xs m) [
  | inl e ↦ subst (λ z. among all z ≡ true) (sym e) (ground arith)
  | inr later ↦ included-among xs all t (ground arith) later
]

each_included : (Str → List Str) → List Str → List Str → Bool
unfolding included
each_included next [] all = true
each_included next (x ∷ xs) all = included (next x) all && each_included next xs all

each_included-among :
    (next : Str → List Str) (xs all : List Str) (c t : Str)
    → each_included next xs all ≡ true
    → among xs c ≡ true
    → among (next c) t ≡ true
    → among all t ≡ true
unfolding each_included
each_included-among next [] all c t h m n = cc
each_included-among next (x ∷ xs) all c t h m n = elim (among-head x c xs m) [
  | inl e ↦ included-among (next x) all t (ground arith) (subst (λ z. among (next z) t ≡ true) e n)
  | inr later ↦ each_included-among next xs all c t (ground arith) later n
]

abbrev walker_p : Walker
walker_p = record { project_root = codes "/p"; root_real = codes "/p"; recursive = true }

abbrev paths : List Str
paths =
    codes "/p/i.png" ∷ codes "/p/b.md" ∷ codes "/p/a.md" ∷ codes "/p/d" ∷ codes "/p/d/t.txt" ∷ []

abbrev seeds : List Str
seeds = targets project commas (codes "/p") (codes "/p") page_a.content

all_has_seeds : included seeds paths ≡ true
unfolding included targets split
all_has_seeds = refl

visits_included : each_included (λ c. (visit project commas walker_p c).1) paths paths ≡ true
unfolding each_included visit lookup split
visits_included = refl

weights : length seeds + open_weight (λ c. length (visit project commas walker_p c).1) [] paths ≡ 7
unfolding targets visit lookup split
weights = refl

crawl_gathers_example :
    (end : Dict File) × ((crawl project commas 7 walker_p (codes "/p") page_a.content [] ≡ some end)
      × (IsGathered project commas walker_p seeds [] end
          × IsWhole project commas walker_p seeds [] end))
crawl_gathers_example =
    crawl_gathers project commas walker_p (codes "/p") page_a.content [] paths
      (λ t m. included-among seeds paths t all_has_seeds m)
      (λ c t m n.
        each_included-among (λ c. (visit project commas walker_p c).1) paths paths c t
          visits_included m n)
      7 (omega (arith, weights))
