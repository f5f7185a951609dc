-- ===== src/Jobs/Runner.antt =====
-- jobs.go: the registered jobs, and what a tick and the loop of a job do to the records.
use mdfly.Common.{
  if◌then◌else◌, ltb_ℤ, Str, codes, ℤ, pos, ℕ, Bool, true, false, not, Option, none, some, List, [],
  ◌∷◌, ◌++◌,
}
use mdfly.Jobs.Record.{JobRun, record_job_run}

pub record Job : Type 0 where
  pub name : Str
  pub interval : ℤ

-- `Register`; `none` is its panic.
unfoldable pub register : Str → ℤ → List Job → Option (List Job)
register name interval jobs =
    if ltb_ℤ (pos 0) interval
    then some (jobs ++ (record { name = name; interval = interval } ∷ []))
    else none

-- `Names`
unfoldable pub names : List Job → List Str
names [] = []
names (j ∷ jobs) = j.name ∷ names jobs

-- How a job's function ends: it returns an error or nil, or it panics.
pub data Outcome : Type 0 where
  returned : Option Str → Outcome
  panicked : Str → Outcome

-- A tick: how the job ended, when, and whether the statement of the recorder took effect. An error of
-- the recorder and its panic are swallowed.
pub record Tick : Type 0 where
  pub outcome : Outcome
  pub at : ℕ
  pub stored : Bool

-- `record`; without a recorder nothing is kept.
unfoldable pub record_run : Bool → Str → Option Str → Tick → List JobRun → List JobRun
unfolding record_job_run
record_run recorder name run_err tick rows =
    if not recorder
    then rows
    else if tick.stored
    then record_job_run name run_err tick.at rows
    else rows

-- What is recorded of the end of a job: a panic is recovered and recorded as an error.
unfoldable pub after : Bool → Str → Tick → Outcome → List JobRun → List JobRun
unfolding record_run
after recorder name tick (returned run_err) rows = record_run recorder name run_err tick rows
after recorder name tick (panicked words) rows =
    record_run recorder name (some (codes "panic: " ++ words)) tick rows

unfoldable pub invoke : Bool → Str → Tick → List JobRun → List JobRun
unfolding after
invoke recorder name tick rows = after recorder name tick tick.outcome rows

-- What the `select` of the loop picks next.
pub data Event : Type 0 where
  quit cancelled : Event
  ticked : Tick → Event

-- `loop`, over what its `select` picks; true where the loop has returned.
unfoldable pub loop : Bool → Str → List Event → List JobRun → List JobRun × Bool
unfolding invoke
loop recorder name [] rows = (rows, false)
loop recorder name (quit ∷ events) rows = (rows, true)
loop recorder name (cancelled ∷ events) rows = (rows, true)
loop recorder name (ticked t ∷ events) rows =
    loop recorder name events (invoke recorder name t rows)
