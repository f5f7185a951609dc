-- ===== src/Tests/Runs.antt =====
-- Runs of the job runner and of a request that is sent again.
use mdfly.Common.{
  ◌==◌, if◌then◌else◌, find, Str, codes, ℕ, ◌≡◌, refl, true, false, Option, none, some, List, [],
  ◌∷◌,
}
use mdfly.Cli.Exit.{transient_error}
use mdfly.Cli.Retry.{
  Attempt, succeeded, raised, value, with_retry, with_retry-IsRun, IsRun, max_attempts,
}
use mdfly.Jobs.History.{summary, history, loop-summary}
use mdfly.Jobs.Record.{has_name}
use mdfly.Jobs.Runner.{Event, returned, panicked, quit, ticked, loop}

abbrev job_name : Str
job_name = codes "purge"

abbrev tick : Option Str → ℕ → Event
tick e at = ticked (record { outcome = returned e; at = at; stored = true })

-- A success, an error, a panic, and the end.
abbrev events : List Event
events =
    tick none 10
    ∷ tick (some (codes "refused")) 20
    ∷ ticked (record { outcome = panicked (codes "nil map"); at = 30; stored = true })
    ∷ quit
    ∷ tick none 40
    ∷ []

loop_purge :
    (loop true job_name events []).0
    ≡ record {
      name = job_name;
      last_success_at = some 10;
      last_failure_at = some 30;
      last_error = some (codes "panic: nil map");
      consecutive_failures = 2;
    }
      ∷ []
unfolding loop
loop_purge = refl

loop-summary_example :
    find (has_name job_name) (loop true job_name events []).0 ≡ summary job_name (history events [])
loop-summary_example = loop-summary job_name events [] [] refl

-- The first call fails on the way, the second succeeds.
abbrev second_works : ℕ → Attempt Str
second_works n = if n == 1 then raised transient_error else succeeded (codes "done")

retried_once : with_retry second_works (λ n. false) ≡ (value (codes "done"), 2)
unfolding with_retry
retried_once = refl

with_retry-IsRun_example :
    IsRun second_works (λ n. false) 1 max_attempts (with_retry second_works (λ n. false))
with_retry-IsRun_example = with_retry-IsRun second_works (λ n. false)
