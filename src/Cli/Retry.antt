-- ===== src/Cli/Retry.antt =====
-- internal/cli/publish/retry.go: `withRetry`. What the n-th call of its function gives, and whether
-- the context ends during the n-th wait, are parameters.
use mdfly.Common.{
  ◌==◌, if◌then◌else◌, ==_iff, Bool-cases, ℕ, zero, suc, ◌+◌, ◌-◌, ◌≤◌, ◌<◌, ◌≡◌, refl, sym, subst,
  ◌⊎◌, inl, inr, Bool, true, false, not, arith,
}
use mdfly.Cli.Exit.{CliError, is_retryable}

abbrev pub max_attempts : ℕ
max_attempts = 3

pub data Attempt (A : Type 0) : Type 0 where
  succeeded : A → Attempt A
  raised : CliError → Attempt A

-- A value, the error of the last call, that error with the number of calls put in front of it, or the
-- context's error.
pub data Outcome (A : Type 0) : Type 0 where
  value : A → Outcome A
  not_retried after_attempts : CliError → Outcome A
  context_done : Outcome A

module _ {A : Type 0} (call : ℕ → Attempt A) (ends : ℕ → Bool) where
  -- The loop from an attempt on, with `left` more attempts after it; also the number of calls made.
  unfoldable pub retry_from : ℕ → ℕ → Outcome A × ℕ
  unfolding is_retryable
  retry_from zero attempt = elim (call attempt) [
    | succeeded a ↦ (value a, attempt)
    | raised e ↦ if is_retryable e then (after_attempts e, attempt) else (not_retried e, attempt)
  ]
  retry_from (suc left) attempt =
      let rest = retry_from left (attempt + 1) in
      elim (call attempt) [
        | succeeded a ↦ (value a, attempt)
        | raised e ↦
            if not (is_retryable e)
            then (not_retried e, attempt)
            else if ends attempt
            then (context_done, attempt)
            else rest
      ]

  unfoldable pub with_retry : Outcome A × ℕ
  unfolding retry_from
  with_retry = retry_from (max_attempts - 1) 1

not_below : (i n : ℕ) → n ≤ i → i < n → ⊥
not_below i n a b = omega arith

Attempt-cases :
    {A : Type 0} (o : Attempt A) → ((a : A) × (o ≡ succeeded a)) ⊎ ((e : CliError) × (o ≡ raised e))
Attempt-cases (succeeded a) = inl (a, refl)
Attempt-cases (raised e) = inr (e, refl)

module _ {A : Type 0} (call : ℕ → Attempt A) (ends : ℕ → Bool) where
  -- The n-th call was worth another one, and the wait behind it was not cut short.
  abbrev pub GoesOn : ℕ → Type 0
  GoesOn n = (e : CliError) × ((call n ≡ raised e) × ((is_retryable e ≡ true) × (ends n ≡ false)))

  -- What the n-th call makes of the whole.
  abbrev pub Ends : ℕ → ℕ → Outcome A → Type 0
  Ends last n (value a) = call n ≡ succeeded a
  Ends last n (not_retried e) = (call n ≡ raised e) × (is_retryable e ≡ false)
  Ends last n (after_attempts e) = (n ≡ last) × ((call n ≡ raised e) × (is_retryable e ≡ true))
  Ends last n context_done =
      (n < last)
      × ((ends n ≡ true) × ((e : CliError) × ((call n ≡ raised e) × (is_retryable e ≡ true))))

  abbrev pub IsRun : ℕ → ℕ → Outcome A × ℕ → Type 0
  IsRun attempt last (o, n) =
      ((attempt ≤ n) × (n ≤ last)) × (((i : ℕ) → attempt ≤ i → i < n → GoesOn i) × Ends last n o)

  at_once : (last n : ℕ) (o : Outcome A) → n ≤ last → Ends last n o → IsRun n last (o, n)
  at_once last n o h ends_so = ((omega arith, h), (λ i a b. elim (not_below i n a b) [ ], ends_so))

  one_more :
      (attempt last : ℕ) (r : Outcome A × ℕ)
      → GoesOn attempt
      → IsRun (attempt + 1) last r
      → IsRun attempt last r
  one_more attempt last (o, n) now ((low, high), (before, ends_so)) = (
    (omega arith, high),
    (
      λ i a b. elim (Bool-cases (i == attempt)) [
        | inl t ↦ subst GoesOn (sym ((==_iff i attempt).0 t)) now
        | inr f ↦ before i (ground (arith, ==_iff i attempt)) b
      ],
      ends_so,
    ),
  )

  retry_from-IsRun :
      (left attempt last : ℕ)
      → last ≡ attempt + left
      → IsRun attempt last (retry_from call ends left attempt)
  unfolding retry_from
  retry_from-IsRun zero attempt last at = elim (Attempt-cases (call attempt)) [
    | inl (a, c) ↦ rw (c, retry_from) (at_once last attempt (value a) (omega arith) c)
    | inr (e, c) ↦ elim (Bool-cases (is_retryable e)) [
      | inl t ↦
          rw (c, t, retry_from)
            (at_once last attempt (after_attempts e) (omega arith) (omega arith, (c, t)))
      | inr f ↦ rw (c, f, retry_from) (at_once last attempt (not_retried e) (omega arith) (c, f))
    ]
  ]
  retry_from-IsRun (suc left) attempt last at = elim (Attempt-cases (call attempt)) [
    | inl (a, c) ↦ rw (c, retry_from) (at_once last attempt (value a) (omega arith) c)
    | inr (e, c) ↦ elim (Bool-cases (is_retryable e)) [
      | inr f ↦ rw (c, f, retry_from) (at_once last attempt (not_retried e) (omega arith) (c, f))
      | inl t ↦ elim (Bool-cases (ends attempt)) [
        | inl d ↦
            rw (c, t, d, retry_from)
              (at_once last attempt context_done (omega arith) (omega arith, (d, (e, (c, t)))))
        | inr g ↦
            rw (c, t, g, retry_from)
              (one_more attempt last (retry_from call ends left (attempt + 1)) (e, (c, (t, g)))
                (retry_from-IsRun left (attempt + 1) last (omega arith)))
      ]
    ]
  ]

  -- A request is sent one to three times: every sending but the last failed in a way that is worth
  -- another try, and was waited out; the last one succeeded, failed in another way, was the third, or
  -- was followed by the end of the context.
  pub with_retry-IsRun : IsRun 1 max_attempts (with_retry call ends)
  unfolding with_retry
  with_retry-IsRun = retry_from-IsRun (max_attempts - 1) 1 max_attempts refl
