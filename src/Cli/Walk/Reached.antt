-- ===== src/Cli/Walk/Reached.antt =====
-- What the crawl gathers: the files of the paths that are reached from its seeds, when it has fuel for
-- the paths that can be reached.
use mdfly.Common.{
  Bool-cases, Str, str_eq, str_eq_iff, str_eq_refl, ◌≡◌, refl, sym, ap, ◌∙◌, subst, ◌⊎◌, inl, inr,
  true, Option, none, some, List, [], ◌∷◌, ◌++◌, arith,
}
use mathlib.Core.Option.{some-injective}
use mdfly.Common.Dict.{Dict, lookup, lookup-insert}
use mdfly.Common.Members.{among, among-append, among-head, among-here, among-behind, or-cases}
use mdfly.Cli.Walk.{FileSystem, Markdown, File}
use mdfly.Cli.Walk.Crawl.{Walker, visit, put}

abbrev pub Has : Str → Dict File → Type 0
Has key files = (f : File) × (lookup key files ≡ some f)

put-Has : (o : Option File) (files : Dict File) (key : Str) → Has key files → Has key (put o files)
unfolding put
put-Has none files key h = h
put-Has (some f) files key (g, h) = elim (Bool-cases (str_eq f.logical_path key)) [
  | inl t ↦ (f, rw (lookup-insert f.logical_path key f files, t) refl)
  | inr e ↦ (g, rw (lookup-insert f.logical_path key f files, e) h)
]

put-same :
    (o : Option File) (files : Dict File) (f : File) → o ≡ some f → Has f.logical_path (put o files)
unfolding put
put-same none files f e = cc
put-same (some g) files f e =
    let same : f ≡ g = some-injective f g (sym e) in
    (
      g,
      lookup-insert g.logical_path f.logical_path g files
          ∙ rw (same, str_eq_refl g.logical_path) refl,
    )

module _ (fs : FileSystem) (md : Markdown) (w : Walker) where
  -- The seeds, and what a path that is reached queues.
  pub data Reached (seeds : List Str) : Str → Type 0 where
    seed : (t : Str) → among seeds t ≡ true → Reached seeds t
    further : (c t : Str) → Reached seeds c → among (visit fs md w c).1 t ≡ true → Reached seeds t

  module _ (seeds : List Str) (start : Dict File) where
    -- Each entry was there at the start, or is the file of a path that is reached, under its key.
    abbrev pub IsGathered : Dict File → Type 0
    IsGathered files =
        (key : Str) (f : File)
        → lookup key files ≡ some f
        → (lookup key start ≡ some f)
          ⊎ ((c : Str) × (Reached seeds c
                × (((visit fs md w c).0 ≡ some f) × (f.logical_path ≡ key))))

    -- The file of every path that is reached has its key among the entries.
    abbrev pub IsWhole : Dict File → Type 0
    IsWhole files =
        (c : Str) (f : File)
        → Reached seeds c
        → (visit fs md w c).0 ≡ some f
        → Has f.logical_path files

    put-IsGathered :
        (o : Option File) (c : Str) (files : Dict File)
        → (visit fs md w c).0 ≡ o
        → Reached seeds c
        → IsGathered files
        → IsGathered (put o files)
    unfolding put
    put-IsGathered none c files e r g key h l = g key h l
    put-IsGathered (some f) c files e r g key h l = elim (Bool-cases (str_eq f.logical_path key)) [
      | inl t ↦
          let found = rw (lookup-insert f.logical_path key f files, t) at l in
          let same : f ≡ h = some-injective f h found in
          inr (
            c,
            (
              r,
              (
                e ∙ ap some same,
                subst (λ x. x.logical_path ≡ key) same ((str_eq_iff f.logical_path key).0 t),
              ),
            ),
          )
      | inr n ↦ g key h (rw (lookup-insert f.logical_path key f files, n) at l)
    ]

    -- What holds in the loop: the queue is reached, what is visited is closed but for the queue, and its
    -- files are there.
    pub record IsCrawl (queue visited : List Str) (files : Dict File) : Type 0 where
      pub queued : (t : Str) → among queue t ≡ true → Reached seeds t
      pub gathered : IsGathered files
      pub seeded :
          (t : Str) → among seeds t ≡ true → (among visited t ≡ true) ⊎ (among queue t ≡ true)
      pub closed :
          (c t : Str)
          → among visited c ≡ true
          → among (visit fs md w c).1 t ≡ true
          → (among visited t ≡ true) ⊎ (among queue t ≡ true)
      pub present :
          (c : Str) (f : File)
          → among visited c ≡ true
          → (visit fs md w c).0 ≡ some f
          → Has f.logical_path files

    over :
        (queue visited : List Str) (cur t : Str)
        → among visited cur ≡ true
        → (among visited t ≡ true) ⊎ (among (cur ∷ queue) t ≡ true)
        → (among visited t ≡ true) ⊎ (among queue t ≡ true)
    over queue visited cur t seen (inl v) = inl v
    over queue visited cur t seen (inr q) = elim (among-head cur t queue q) [
      | inl e ↦ inl (subst (λ x. among visited x ≡ true) (sym e) seen)
      | inr m ↦ inr m
    ]

    pub skip-IsCrawl :
        (cur : Str) (queue visited : List Str) (files : Dict File)
        → among visited cur ≡ true
        → IsCrawl (cur ∷ queue) visited files
        → IsCrawl queue visited files
    skip-IsCrawl cur queue visited files seen i = record {
      queued = λ t m. i.queued t (among-behind cur t queue m);
      gathered = i.gathered;
      seeded = λ t m. over queue visited cur t seen (i.seeded t m);
      closed = λ c t v m. over queue visited cur t seen (i.closed c t v m);
      present = i.present;
    }

    in_append_left : (xs ys : List Str) (t : Str) → among xs t ≡ true → among (xs ++ ys) t ≡ true
    in_append_left xs ys t h = ground (arith, among-append xs ys t)

    in_append_right : (xs ys : List Str) (t : Str) → among ys t ≡ true → among (xs ++ ys) t ≡ true
    in_append_right xs ys t h = ground (arith, among-append xs ys t)

    later :
        (queue visited more : List Str) (cur t : Str)
        → (among visited t ≡ true) ⊎ (among (cur ∷ queue) t ≡ true)
        → (among (cur ∷ visited) t ≡ true) ⊎ (among (queue ++ more) t ≡ true)
    later queue visited more cur t (inl v) = inl (among-behind cur t visited v)
    later queue visited more cur t (inr q) = elim (among-head cur t queue q) [
      | inl e ↦ inl (subst (λ x. among (cur ∷ visited) x ≡ true) (sym e) (among-here cur visited))
      | inr m ↦ inr (in_append_left queue more t m)
    ]

    pub visit-IsCrawl :
        (cur : Str) (queue visited : List Str) (files : Dict File)
        → IsCrawl (cur ∷ queue) visited files
        → IsCrawl (queue ++ (visit fs md w cur).1) (cur ∷ visited) (put (visit fs md w cur).0 files)
    visit-IsCrawl cur queue visited files i =
        let more = (visit fs md w cur).1 in
        let now = i.queued cur (among-here cur queue) in
        record {
          queued = λ t m.
              elim (or-cases (among queue t) (among more t) (sym (among-append queue more t) ∙ m)) [
                | inl q ↦ i.queued t (among-behind cur t queue q)
                | inr n ↦ further cur t now n
              ];
          gathered = put-IsGathered (visit fs md w cur).0 cur files refl now i.gathered;
          seeded = λ t m. later queue visited more cur t (i.seeded t m);
          closed = λ c t v m. elim (among-head cur c visited v) [
            | inl e ↦
                inr (
                  in_append_right queue more t
                    (subst (λ x. among (visit fs md w x).1 t ≡ true) e m))
            | inr old ↦ later queue visited more cur t (i.closed c t old m)
          ];
          present = λ c f v e. elim (among-head cur c visited v) [
            | inl same ↦
                put-same (visit fs md w cur).0 files f
                  (subst (λ x. (visit fs md w x).0 ≡ some f) same e)
            | inr old ↦ put-Has (visit fs md w cur).0 files f.logical_path (i.present c f old e)
          ];
        }

    none_left :
        (t : Str) (visited : List Str)
        → (among visited t ≡ true) ⊎ (among [] t ≡ true)
        → among visited t ≡ true
    none_left t visited (inl v) = v
    none_left t visited (inr q) = cc

    Reached-visited :
        (visited : List Str) (files : Dict File)
        → IsCrawl [] visited files
        → (t : Str) → Reached seeds t
        → among visited t ≡ true
    Reached-visited visited files i _ (seed t m) = none_left t visited (i.seeded t m)
    Reached-visited visited files i _ (further c t r m) =
        none_left t visited (i.closed c t (Reached-visited visited files i c r) m)

    pub IsCrawl-end :
        (visited : List Str) (files : Dict File)
        → IsCrawl [] visited files
        → IsGathered files × IsWhole files
    IsCrawl-end visited files i =
        (i.gathered, λ c f r e. i.present c f (Reached-visited visited files i c r) e)
