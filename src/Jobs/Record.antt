-- ===== src/Jobs/Record.antt =====
-- jobruns.go: the `job_runs` table and `RecordJobRun`.
use mdfly.Common.{if◌then◌else◌, Str, str_eq, ℕ, ◌+◌, Bool, Option, none, some, List, [], ◌∷◌}

pub record JobRun : Type 0 where
  pub name : Str
  pub last_success_at : Option ℕ
  pub last_failure_at : Option ℕ
  pub last_error : Option Str
  pub consecutive_failures : ℕ

-- `COALESCE(a, b)`
unfoldable pub coalesce {ℓ} : {A : Type ℓ} → Option A → Option A → Option A
coalesce none b = b
coalesce (some a) b = some a

-- The row that the statement inserts; `none` is a run without an error.
unfoldable pub inserted : Str → Option Str → ℕ → JobRun
inserted name none at = record {
  name = name;
  last_success_at = some at;
  last_failure_at = none;
  last_error = none;
  consecutive_failures = 0;
}
inserted name (some words) at = record {
  name = name;
  last_success_at = none;
  last_failure_at = some at;
  last_error = some words;
  consecutive_failures = 1;
}

-- `ON CONFLICT (name) DO UPDATE`: the new row over the old one.
unfoldable pub merged : JobRun → JobRun → JobRun
unfolding coalesce
merged new old = record {
  name = old.name;
  last_success_at = coalesce new.last_success_at old.last_success_at;
  last_failure_at = coalesce new.last_failure_at old.last_failure_at;
  last_error = coalesce new.last_error old.last_error;
  consecutive_failures = elim new.last_success_at [
    | some _ ↦ 0
    | none ↦ old.consecutive_failures + 1
  ];
}

unfoldable pub has_name : Str → JobRun → Bool
unfolding str_eq
has_name name r = str_eq r.name name

unfoldable pub upsert : JobRun → List JobRun → List JobRun
unfolding has_name merged
upsert new [] = new ∷ []
upsert new (r ∷ rows) =
    let rest = upsert new rows in if has_name new.name r then merged new r ∷ rows else r ∷ rest

unfoldable pub record_job_run : Str → Option Str → ℕ → List JobRun → List JobRun
unfolding inserted upsert
record_job_run name run_err at rows = upsert (inserted name run_err at) rows
