-- ===== src/Purge/Backoff/Bounds.antt =====
-- `backoffFor`: the loop with its int64 sums is a capped power of two.
use mdfly.Common.{
  ltb, leb, if◌then◌else◌, Bool-cases, add64_exact, pos, ℕ, zero, suc, ◌+◌, ◌*◌, ◌^◌, ◌≤◌, ◌<◌, ◌≡◌,
  sym, ap, ◌∙◌, inl, inr, arith,
}
use mdfly.Purge.Backoff.{double_below, cap_at, backoff_for}

pub min : ℕ → ℕ → ℕ
min a b = if leb a b then a else b

pow_suc : (n : ℕ) → 2 ^ suc n ≡ 2 ^ n + 2 ^ n
pow_suc n = omega arith

twice_mul : (b p : ℕ) → (b + b) * p ≡ b * (p + p)
twice_mul b p = omega arith

le-mul_add : (b p : ℕ) → b ≤ b * p → b ≤ b * (p + p)
le-mul_add b p h = omega arith

le-mul_pow : (b n : ℕ) → b ≤ b * 2 ^ n
le-mul_pow b zero = omega arith
le-mul_pow b (suc n) = rw (pow_suc n) (le-mul_add b (2 ^ n) (le-mul_pow b n))

double-pow : (b n : ℕ) → (b + b) * 2 ^ n ≡ b * 2 ^ suc n
double-pow b n = rw (pow_suc n, twice_mul b (2 ^ n))

double_below-twice :
    (n b c : ℕ)
    → b < c
    → c ≤ 4611686018427387904
    → double_below (suc n) (pos b) (pos c) ≡ double_below n (pos (b + b)) (pos c)
unfolding double_below
double_below-twice n b c h k = ground (arith, add64_exact b b (omega arith))

double_below-done : (n b c : ℕ) → c ≤ b → double_below (suc n) (pos b) (pos c) ≡ pos b
unfolding double_below
double_below-done n b c h = ground arith

min_capped : (b c : ℕ) → c ≤ b → min b c ≡ c
unfolding min
min_capped b c h = ground arith

cap_at-min : (b c : ℕ) → cap_at (pos c) (pos b) ≡ pos (min b c)
unfolding cap_at min
cap_at-min b c = ground arith

double_below-capped :
    (n b c : ℕ)
    → c ≤ 4611686018427387904
    → cap_at (pos c) (double_below n (pos b) (pos c)) ≡ pos (min (b * 2 ^ n) c)
unfolding double_below
double_below-capped zero b c h = cap_at-min b c ∙ ap (λ m. pos (min m c)) (omega arith)
double_below-capped (suc n) b c h = elim (Bool-cases (ltb b c)) [
  | inl t ↦
      ap (cap_at (pos c)) (double_below-twice n b c (ground arith) h)
      ∙ double_below-capped n (b + b) c h
      ∙ ap (λ m. pos (min m c)) (double-pow b n)
  | inr f ↦
      ap (cap_at (pos c)) (double_below-done n b c (ground arith))
      ∙ cap_at-min b c
      ∙ ap pos (
          min_capped b c (ground arith)
          ∙ sym (min_capped (b * 2 ^ suc n) c (ground (arith, le-mul_pow b (suc n)))))
]

-- With a positive base and a positive ceiling of at most 2 ^ 62 nanoseconds the delay after a number
-- of attempts is the base doubled that many times, cut at the ceiling: no int64 sum wraps around.
pub backoff_for-exact :
    (b c n : ℕ)
    → 0 < b
    → 0 < c
    → c ≤ 4611686018427387904
    → backoff_for (pos b) (pos c) n ≡ pos (min (b * 2 ^ n) c)
unfolding backoff_for
backoff_for-exact b c n hb hc h = ground (arith, double_below-capped n b c h)
