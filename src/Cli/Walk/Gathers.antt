-- ===== src/Cli/Walk/Gathers.antt =====
-- The crawl ends, where finitely many paths can be reached, with the files of those that are.
use mdfly.Common.{
  if◌then◌else◌, Bool-cases, length, Str, str_eq, str_eq_iff, ℕ, zero, suc, ◌+◌, ◌≤◌, ◌≡◌, refl,
  sym, ap, subst, inl, inr, true, false, some, List, [], ◌∷◌, ◌++◌, arith,
}
use mathlib.Core.Option.{some-injective}
use mdfly.Common.Dict.{Dict}
use mdfly.Common.Members.{among, among-here}
use mdfly.Cli.Walk.{FileSystem, Markdown, File, targets}
use mdfly.Cli.Walk.Crawl.{Walker, visit, put, crawl_from, crawl}
use mdfly.Cli.Walk.Reached.{
  Reached, IsGathered, IsWhole, IsCrawl, skip-IsCrawl, visit-IsCrawl, IsCrawl-end,
}

length-append_str : (xs ys : List Str) → length (xs ++ ys) ≡ length xs + length ys
length-append_str [] ys = omega arith
length-append_str (x ∷ xs) ys = omega (arith, length-append_str xs ys)

module _ (weight : Str → ℕ) where
  -- What the paths that are not visited weigh.
  abbrev pub open_weight : List Str → List Str → ℕ
  open_weight visited [] = 0
  open_weight visited (u ∷ all) =
      (if among visited u then 0 else weight u) + open_weight visited all

  open_weight-more :
      (visited all : List Str) (c : Str) → open_weight (c ∷ visited) all ≤ open_weight visited all
  open_weight-more visited [] c = omega arith
  open_weight-more visited (u ∷ all) c = ground (arith, open_weight-more visited all c)

  open_weight-visit :
      (visited all : List Str) (c : Str)
      → among all c ≡ true
      → among visited c ≡ false
      → open_weight (c ∷ visited) all + weight c ≤ open_weight visited all
  open_weight-visit visited [] c m f = cc
  open_weight-visit visited (u ∷ all) c m f = elim (Bool-cases (str_eq c u)) [
    | inl t ↦
        let same : weight c ≡ weight u = ap weight ((str_eq_iff c u).0 t) in
        let old : among visited c ≡ among visited u = ap (among visited) ((str_eq_iff c u).0 t) in
        let flip : str_eq u c ≡ true = (str_eq_iff u c).1 (sym ((str_eq_iff c u).0 t)) in
        ground (arith, open_weight-more visited all c)
    | inr n ↦ ground (arith, open_weight-visit visited all c)
  ]

module _ (fs : FileSystem) (md : Markdown) (w : Walker) (seeds : List Str) (start : Dict File)
    (all : List Str) (seeds_in : (t : Str) → among seeds t ≡ true → among all t ≡ true)
    (closed_in : (c t : Str)
      → among all c ≡ true
      → among (visit fs md w c).1 t ≡ true
      → among all t ≡ true) where
  abbrev queued_by : Str → ℕ
  queued_by c = length (visit fs md w c).1

  Reached-in : (t : Str) → Reached fs md w seeds t → among all t ≡ true
  Reached-in _ (Reached.seed t m) = seeds_in t m
  Reached-in _ (Reached.further c t r m) = closed_in c t (Reached-in c r) m

  crawl_from_gathers :
      (fuel : ℕ) (queue visited : List Str) (files : Dict File)
      → IsCrawl fs md w seeds start queue visited files
      → length queue + open_weight queued_by visited all ≤ fuel
      → (end : Dict File) × ((crawl_from fs md fuel w queue visited files ≡ some end)
          × (IsGathered fs md w seeds start end × IsWhole fs md w seeds start end))
  unfolding crawl_from
  crawl_from_gathers fuel [] visited files i h =
      (files, (refl, IsCrawl-end fs md w seeds start visited files i))
  crawl_from_gathers zero (cur ∷ queue) visited files i h = absurd (omega arith)
  crawl_from_gathers (suc fuel) (cur ∷ queue) visited files i h =
      elim (Bool-cases (among visited cur)) [
        | inl t ↦
            rw (t, crawl_from)
              (crawl_from_gathers fuel queue visited files
                (skip-IsCrawl fs md w seeds start cur queue visited files t i) (omega arith))
        | inr f ↦
            let more = (visit fs md w cur).1 in
            let here = Reached-in cur (i.queued cur (among-here cur queue)) in
            let less = open_weight-visit queued_by visited all cur here f in
            rw (f, crawl_from)
              (crawl_from_gathers fuel (queue ++ more) (cur ∷ visited)
                (put (visit fs md w cur).0 files)
                (visit-IsCrawl fs md w seeds start cur queue visited files i)
                (omega (arith, length-append_str queue more)))
      ]

first-IsCrawl :
    (fs : FileSystem) (md : Markdown) (w : Walker) (seeds : List Str) (start : Dict File)
    → IsCrawl fs md w seeds start seeds [] start
first-IsCrawl fs md w seeds start = record {
  queued = λ t m. Reached.seed t m;
  gathered = λ key f l. inl l;
  seeded = λ t m. inr m;
  closed = λ c t v m. cc;
  present = λ c f v e. cc;
}

crawl_from-end :
    (fs : FileSystem) (md : Markdown) (w : Walker) (seeds : List Str) (start : Dict File) (fuel : ℕ)
    (queue visited : List Str) (files end : Dict File)
    → IsCrawl fs md w seeds start queue visited files
    → crawl_from fs md fuel w queue visited files ≡ some end
    → IsGathered fs md w seeds start end × IsWhole fs md w seeds start end
unfolding crawl_from
crawl_from-end fs md w seeds start fuel [] visited files end i e =
    subst (λ x. IsGathered fs md w seeds start x × IsWhole fs md w seeds start x)
      (some-injective files end e) (IsCrawl-end fs md w seeds start visited files i)
crawl_from-end fs md w seeds start zero (cur ∷ queue) visited files end i e = cc
crawl_from-end fs md w seeds start (suc fuel) (cur ∷ queue) visited files end i e =
    elim (Bool-cases (among visited cur)) [
      | inl t ↦
          crawl_from-end fs md w seeds start fuel queue visited files end
            (skip-IsCrawl fs md w seeds start cur queue visited files t i) (rw (t, crawl_from) at e)
      | inr f ↦
          crawl_from-end fs md w seeds start fuel (queue ++ (visit fs md w cur).1) (cur ∷ visited)
            (put (visit fs md w cur).0 files) end
            (visit-IsCrawl fs md w seeds start cur queue visited files i) (rw (f, crawl_from) at e)
    ]

pub crawl-end :
    (fs : FileSystem) (md : Markdown) (fuel : ℕ) (w : Walker) (seed_dir content : Str)
    (start end : Dict File)
    → crawl fs md fuel w seed_dir content start ≡ some end
    → IsGathered fs md w (targets fs md w.root_real seed_dir content) start end
      × IsWhole fs md w (targets fs md w.root_real seed_dir content) start end
unfolding crawl
crawl-end fs md fuel w seed_dir content start end e =
    let seeds = targets fs md w.root_real seed_dir content in
    crawl_from-end fs md w seeds start fuel seeds [] start end (first-IsCrawl fs md w seeds start) e

-- A crawl ends, and its files are those that it started with and those of the paths that are reached
-- from its seeds, each under its key: all of them, and no others; if the paths are among finitely many
-- that refer to one another only, and the fuel is as large as the number of seeds and of the references
-- of all these paths together.
pub crawl_gathers :
    (fs : FileSystem) (md : Markdown) (w : Walker) (seed_dir content : Str) (start : Dict File)
    (all : List Str)
    → ((t : Str) → among (targets fs md w.root_real seed_dir content) t ≡ true → among all t ≡ true)
    → ((c t : Str) → among all c ≡ true → among (visit fs md w c).1 t ≡ true → among all t ≡ true)
    → (fuel : ℕ)
    → length (targets fs md w.root_real seed_dir content)
        + open_weight (λ c. length (visit fs md w c).1) [] all
      ≤ fuel
    → (end : Dict File) × ((crawl fs md fuel w seed_dir content start ≡ some end)
        × (IsGathered fs md w (targets fs md w.root_real seed_dir content) start end
            × IsWhole fs md w (targets fs md w.root_real seed_dir content) start end))
unfolding crawl
crawl_gathers fs md w seed_dir content start all seeds_in closed_in fuel h =
    let seeds = targets fs md w.root_real seed_dir content in
    crawl_from_gathers fs md w seeds start all seeds_in closed_in fuel seeds [] start
      (first-IsCrawl fs md w seeds start) h
