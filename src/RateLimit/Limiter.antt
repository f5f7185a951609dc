-- ===== src/RateLimit/Limiter.antt =====
-- ratelimit.go. Sizes of windows and waits are whole seconds, a time is its Unix seconds. The shared
-- counter is a parameter: what IncrementWithTTL answers for the keys, `none` being an error.
pub mod Laws
use mdfly.Common.{
  ltb, ◌==◌, if◌then◌else◌, length, Str, codes, ℕ, ◌-◌, ◌/◌, ◌%◌, Bool, true, false, Option, none,
  some, List, [], ◌∷◌,
}

pub record Window : Type 0 where
  pub name : Str
  pub size : ℕ
  pub limit : ℕ

abbrev pub per_minute : ℕ
per_minute = 10

abbrev pub per_hour : ℕ
per_hour = 30

unfoldable pub default_windows : List Window
default_windows =
    record { name = codes "1m"; size = 60; limit = per_minute }
    ∷ record { name = codes "1h"; size = 3600; limit = per_hour }
    ∷ []

pub record Decision : Type 0 where
  pub allowed : Bool
  pub limit : ℕ
  pub remaining : ℕ
  pub retry_after : ℕ

abbrev pub fail_open : Decision
fail_open = record { allowed = true; limit = 0; remaining = 0; retry_after = 0 }

-- A counter of the store: the subject, the window's name and the step stand for the formatted key
-- "rl:%s:%s:%d".
pub record CounterOp : Type 0 where
  pub subject : Str
  pub window : Str
  pub step : ℕ
  pub ttl : ℕ

unfoldable pub bucket_step : Window → ℕ → ℕ
bucket_step w now = now / w.size

unfoldable pub ops : Str → ℕ → List Window → List CounterOp
unfolding bucket_step
ops subject now [] = []
ops subject now (w ∷ ws) =
    record { subject = subject; window = w.name; step = bucket_step w now; ttl = w.size }
    ∷ ops subject now ws

unfoldable pub until_next_window : Window → ℕ → ℕ
until_next_window w now = w.size - now % w.size

-- One round of the loop of `decide`, on (allowed, denied).
unfoldable pub judge : Window → ℕ → ℕ → Decision × Decision → Decision × Decision
unfolding until_next_window
judge w count now (allowed, denied) =
    if ltb w.limit count
    then if ltb denied.retry_after (until_next_window w now)
      then (
        allowed,
        record {
          allowed = false;
          limit = w.limit;
          remaining = 0;
          retry_after = until_next_window w now;
        },
      )
      else (allowed, denied)
    else if ltb (w.limit - count) allowed.remaining
    then (record allowed { limit = w.limit; remaining = w.limit - count }, denied)
    else (allowed, denied)

unfoldable pub judge_all : List Window → List ℕ → ℕ → Decision × Decision → Decision × Decision
unfolding judge
judge_all (w ∷ ws) (c ∷ cs) now s = judge_all ws cs now (judge w c now s)
judge_all _ _ now s = s

unfoldable pub pick : Decision × Decision → Decision
pick (allowed, denied) = if ltb 0 denied.retry_after then denied else allowed

abbrev pub no_denial : Decision
no_denial = record { allowed = false; limit = 0; remaining = 0; retry_after = 0 }

unfoldable pub first_limit : List Window → ℕ
first_limit [] = 0
first_limit (w ∷ _) = w.limit

unfoldable pub decide : List Window → List ℕ → ℕ → Decision
unfolding judge_all pick first_limit
decide ws counts now =
    let first = first_limit ws in
    pick (
      judge_all ws counts now
        (record { allowed = true; limit = first; remaining = first; retry_after = 0 }, no_denial))

unfoldable pub allow : (List CounterOp → Option (List ℕ)) → List Window → Str → ℕ → Decision
unfolding ops decide
allow increment [] subject now = fail_open
allow increment (w ∷ ws) subject now = elim (increment (ops subject now (w ∷ ws))) [
  | none ↦ fail_open
  | some counts ↦ if length counts == length (w ∷ ws) then decide (w ∷ ws) counts now else fail_open
]
