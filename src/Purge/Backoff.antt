-- ===== src/Purge/Backoff.antt =====
-- purge.go: `backoffFor` and the batch size. A time.Duration is an int64 of nanoseconds.
pub mod Bounds
use mdfly.Common.{
  if◌then◌else◌, pos_part, neg_part, ltb_ℤ, add64, ℤ, pos, negsuc, ℕ, zero, suc, ◌+◌, ◌-◌, ◌*◌,
  true, false,
}

abbrev pub minute : ℕ
minute = 60000000000

abbrev pub default_base_backoff : ℤ
default_base_backoff = pos minute

abbrev pub default_max_backoff : ℤ
default_max_backoff = pos (360 * minute)

abbrev pub default_batch_size : ℕ
default_batch_size = 50

-- `if v <= 0 { v = def }`
abbrev pub or_default : ℤ → ℤ → ℤ
or_default v def = if ltb_ℤ (pos 0) v then v else def

-- The loop, over the attempts left: `delay *= 2` while it is below the ceiling.
unfoldable pub double_below : ℕ → ℤ → ℤ → ℤ
unfolding add64
double_below zero delay ceiling = delay
double_below (suc n) delay ceiling = elim (ltb_ℤ delay ceiling) [
  | true ↦ double_below n (add64 delay delay) ceiling
  | false ↦ delay
]

unfoldable pub cap_at : ℤ → ℤ → ℤ
cap_at ceiling delay = if ltb_ℤ ceiling delay then ceiling else delay

unfoldable pub backoff_for : ℤ → ℤ → ℕ → ℤ
unfolding double_below cap_at
backoff_for base_backoff max_backoff attempts =
    let base = or_default base_backoff default_base_backoff in
    let ceiling = or_default max_backoff default_max_backoff in
    cap_at ceiling (double_below attempts base ceiling)

-- `batchSize`: a size that is not positive stands for the default.
unfoldable pub batch_size : ℤ → ℕ → ℕ
batch_size (pos zero) def = def
batch_size (pos (suc n)) def = suc n
batch_size (negsuc n) def = def

-- `now.Add(d)`
abbrev pub add_time : ℕ → ℤ → ℕ
add_time now d = now + pos_part d - neg_part d
