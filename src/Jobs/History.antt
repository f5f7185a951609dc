-- ===== src/Jobs/History.antt =====
-- The row of a job tells of the history of its ticks.
use mdfly.Common.{
  if◌then◌else◌, Bool-cases, Option-cases, if_true, if_false, find, Str, codes, str_eq, str_eq_iff,
  str_eq_refl, ℕ, ◌+◌, ◌≡◌, refl, sym, ap, ◌∙◌, inl, inr, true, false, Option, none, some, List, [],
  ◌∷◌, ◌++◌, arith,
}
use mdfly.Jobs.Record.{JobRun, coalesce, inserted, merged, has_name, upsert, record_job_run}
use mdfly.Jobs.Runner.{
  Tick, Outcome, Event, returned, panicked, quit, cancelled, ticked, invoke, loop, record_run,
  after,
}
use mdfly.Common.Lookup.{map_option}

-- What went wrong in a tick.
abbrev pub failure : Outcome → Option Str
failure (returned e) = e
failure (panicked words) = some (codes "panic: " ++ words)

-- A history has the latest tick first.
abbrev pub last_success : List Tick → Option ℕ
last_success [] = none
last_success (t ∷ h) =
    let before = last_success h in elim (failure t.outcome) [ none ↦ some t.at | some _ ↦ before ]

abbrev pub last_failure : List Tick → Option (ℕ × Str)
last_failure [] = none
last_failure (t ∷ h) =
    let before = last_failure h in
    elim (failure t.outcome) [ none ↦ before | some words ↦ some (t.at, words) ]

abbrev pub failures_in_a_row : List Tick → ℕ
failures_in_a_row [] = 0
failures_in_a_row (t ∷ h) =
    let before = failures_in_a_row h in elim (failure t.outcome) [ none ↦ 0 | some _ ↦ before + 1 ]

-- The row of a history that is not empty, none of an empty one.
abbrev pub summary : Str → List Tick → Option JobRun
summary name [] = none
summary name (t ∷ h) = some (record {
  name = name;
  last_success_at = last_success (t ∷ h);
  last_failure_at = map_option (λ f. f.0) (last_failure (t ∷ h));
  last_error = map_option (λ f. f.1) (last_failure (t ∷ h));
  consecutive_failures = failures_in_a_row (t ∷ h);
})

-- The ticks of a loop up to its return whose record took effect, in front of those before.
abbrev pub history : List Event → List Tick → List Tick
history [] h = h
history (quit ∷ events) h = h
history (cancelled ∷ events) h = h
history (ticked t ∷ events) h = if t.stored then history events (t ∷ h) else history events h

merged_onto : JobRun → Option JobRun → JobRun
merged_onto new none = new
merged_onto new (some old) = merged new old

find-upsert :
    (name : Str) (new : JobRun) (rows : List JobRun)
    → find (has_name name) (upsert new rows) ≡ (
        if str_eq new.name name
        then some (merged_onto new (find (has_name name) rows))
        else find (has_name name) rows)
unfolding upsert has_name merged merged_onto
find-upsert name new [] = refl
find-upsert name new (r ∷ rows) =
    let ih = find-upsert name new rows in
    elim (Bool-cases (str_eq r.name new.name)) [
      | inl t ↦
          let same : str_eq r.name name ≡ str_eq new.name name =
            ap (λ n. str_eq n name) ((str_eq_iff r.name new.name).0 t) in
          elim (Bool-cases (str_eq new.name name)) [
            | inl u ↦ rw (t, upsert, has_name, same, u) refl
            | inr g ↦ rw (t, upsert, has_name, same, g) refl
          ]
      | inr f ↦ elim (Bool-cases (str_eq r.name name)) [
        | inr g ↦ rw (f, upsert, has_name, g) ih
        | inl u ↦
            let other : str_eq new.name name ≡ false = ground (
              arith,
              str_eq_iff r.name new.name,
              str_eq_iff r.name name,
              str_eq_iff new.name name,
            ) in
            rw (f, upsert, has_name, u, other) refl
      ]
    ]

inserted-name :
    (name : Str) (e : Option Str) (at : ℕ) → str_eq (inserted name e at).name name ≡ true
unfolding inserted
inserted-name name none at = str_eq_refl name
inserted-name name (some words) at = str_eq_refl name

-- A tick recorded over the row of a history gives the row of the longer history.
merged_onto-summary :
    (name : Str) (t : Tick) (h : List Tick)
    → some (merged_onto (inserted name (failure t.outcome) t.at) (summary name h))
      ≡ summary name (t ∷ h)
unfolding inserted merged coalesce merged_onto
merged_onto-summary name t [] = elim (Option-cases (failure t.outcome)) [
  | inl n ↦ rw (n, inserted, summary, last_success, last_failure, failures_in_a_row) refl
  | inr (words, e) ↦ rw (e, inserted, summary, last_success, last_failure, failures_in_a_row) refl
]
merged_onto-summary name t (u ∷ h) = elim (Option-cases (failure t.outcome)) [
  | inl n ↦ rw (n, inserted, summary, last_success, last_failure, failures_in_a_row) refl
  | inr (words, e) ↦ rw (e, inserted, summary, last_success, last_failure, failures_in_a_row) refl
]

after-failure :
    (name : Str) (t : Tick) (o : Outcome) (rows : List JobRun)
    → after true name t o rows
      ≡ (if t.stored then record_job_run name (failure o) t.at rows else rows)
unfolding after record_run
after-failure name t (returned e) rows = refl
after-failure name t (panicked words) rows = refl

module _ (name : Str) (t : Tick) (rows : List JobRun) where
  invoke_lost : t.stored ≡ false → invoke true name t rows ≡ rows
  unfolding invoke
  invoke_lost f =
      after-failure name t t.outcome rows
      ∙ if_false (record_job_run name (failure t.outcome) t.at rows) rows f

  -- A recorded tick makes the row that of the longer history.
  invoke-summary :
      (h : List Tick)
      → find (has_name name) rows ≡ summary name h
      → t.stored ≡ true
      → find (has_name name) (invoke true name t rows) ≡ summary name (t ∷ h)
  unfolding invoke record_job_run
  invoke-summary h row s =
      let new = inserted name (failure t.outcome) t.at in
      ap (find (has_name name)) (
        after-failure name t t.outcome rows
        ∙ if_true (record_job_run name (failure t.outcome) t.at rows) rows s)
      ∙ find-upsert name new rows
      ∙ if_true (some (merged_onto new (find (has_name name) rows))) (find (has_name name) rows)
          (inserted-name name (failure t.outcome) t.at)
      ∙ ap (λ r. some (merged_onto new r)) row
      ∙ merged_onto-summary name t h

-- The row of a job tells of its history: if it was that of a history when the loop began, or missing
-- where there was none, it is that of the history with the recorded ticks in front when the loop
-- ends: the times of the last success and of the last failure, what went wrong then, and how many
-- failures came in a row; a panic counts as a failure, and stops neither the loop nor the records.
pub loop-summary :
    (name : Str) (events : List Event) (h : List Tick) (rows : List JobRun)
    → find (has_name name) rows ≡ summary name h
    → find (has_name name) (loop true name events rows).0 ≡ summary name (history events h)
unfolding loop
loop-summary name [] h rows row = row
loop-summary name (quit ∷ events) h rows row = row
loop-summary name (cancelled ∷ events) h rows row = row
loop-summary name (ticked t ∷ events) h rows row = elim (Bool-cases t.stored) [
  | inl s ↦
      loop-summary name events (t ∷ h) (invoke true name t rows)
        (invoke-summary name t rows h row s)
      ∙ ap (summary name) (sym (if_true (history events (t ∷ h)) (history events h) s))
  | inr f ↦
      loop-summary name events h (invoke true name t rows)
        (ap (find (has_name name)) (invoke_lost name t rows f) ∙ row)
      ∙ ap (summary name) (sym (if_false (history events (t ∷ h)) (history events h) f))
]
