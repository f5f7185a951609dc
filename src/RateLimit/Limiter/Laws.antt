-- ===== src/RateLimit/Limiter/Laws.antt =====
-- What a decision of the limiter says of the counts.
use native.Mathlib.Nat.{lt-div-mul-add, div-add-mod', mul-le-mul_right}
use mdfly.Common.{
  ltb, if◌then◌else◌, ltb→lt, Bool-cases, All, ℕ, ◌+◌, ◌-◌, ◌/◌, ◌%◌, ◌≤◌, ◌<◌, ◌≡◌, refl, ap, ◌∙◌,
  inl, inr, Bool, true, false, not, ◌&&◌, ◌||◌, List, [], ◌∷◌, arith,
}
use mdfly.RateLimit.Limiter.{
  Window, Decision, until_next_window, judge, judge_all, bucket_step, pick, first_limit, decide,
  no_denial,
}

-- Some window has counted more than its limit.
abbrev pub exceeded : List Window → List ℕ → Bool
exceeded (w ∷ ws) (c ∷ cs) = ltb w.limit c || exceeded ws cs
exceeded _ _ = false

-- The longest wait of the windows that are exceeded.
abbrev pub longest_wait : List Window → List ℕ → ℕ → ℕ → ℕ
longest_wait (w ∷ ws) (c ∷ cs) now acc =
    longest_wait ws cs now
      (if ltb w.limit c && ltb acc (until_next_window w now) then until_next_window w now else acc)
longest_wait _ _ now acc = acc

-- The least number of requests that the windows have left, from `acc` on.
abbrev pub least_left : List Window → List ℕ → ℕ → ℕ
least_left (w ∷ ws) (c ∷ cs) acc =
    least_left ws cs (if ltb (w.limit - c) acc then w.limit - c else acc)
least_left _ _ acc = acc

abbrev pub HasSize : Window → Type 0
HasSize w = 0 < w.size

until_next-positive : (w : Window) (now : ℕ) → HasSize w → 0 < until_next_window w now
unfolding until_next_window
until_next-positive w now h = omega arith

judge-waits :
    (w : Window) (c now : ℕ) (a n : Decision)
    → (judge w c now (a, n)).1.retry_after ≡ (
        if ltb w.limit c && ltb n.retry_after (until_next_window w now)
        then until_next_window w now
        else n.retry_after)
unfolding judge
judge-waits w c now a n = ground arith

judge-left :
    (w : Window) (c now : ℕ) (a n : Decision)
    → ltb w.limit c ≡ false
    → (judge w c now (a, n)).0.remaining
      ≡ (if ltb (w.limit - c) a.remaining then w.limit - c else a.remaining)
unfolding judge
judge-left w c now a n h = ground arith

judge-allowed :
    (w : Window) (c now : ℕ) (a n : Decision)
    → ((judge w c now (a, n)).0.allowed ≡ a.allowed)
      × (n.allowed ≡ false → (judge w c now (a, n)).1.allowed ≡ false)
unfolding judge
judge-allowed w c now a n = ground arith

judge_all-waits :
    (ws : List Window) (cs : List ℕ) (now : ℕ) (a n : Decision)
    → (judge_all ws cs now (a, n)).1.retry_after ≡ longest_wait ws cs now n.retry_after
unfolding judge_all
judge_all-waits [] cs now a n = ground arith
judge_all-waits (w ∷ ws) [] now a n = ground arith
judge_all-waits (w ∷ ws) (c ∷ cs) now a n =
    let next = judge w c now (a, n) in
    judge_all-waits ws cs now next.0 next.1 ∙ ap (longest_wait ws cs now) (judge-waits w c now a n)

judge_all-allowed :
    (ws : List Window) (cs : List ℕ) (now : ℕ) (a n : Decision)
    → n.allowed ≡ false
    → ((judge_all ws cs now (a, n)).0.allowed ≡ a.allowed)
      × ((judge_all ws cs now (a, n)).1.allowed ≡ false)
unfolding judge_all
judge_all-allowed [] cs now a n h = (refl, h)
judge_all-allowed (w ∷ ws) [] now a n h = (refl, h)
judge_all-allowed (w ∷ ws) (c ∷ cs) now a n h =
    let next = judge w c now (a, n) in
    let (same, refuses) = judge-allowed w c now a n in
    let (x, y) = judge_all-allowed ws cs now next.0 next.1 (refuses h) in (x ∙ same, y)

longest_wait-grows :
    (ws : List Window) (cs : List ℕ) (now acc : ℕ) → acc ≤ longest_wait ws cs now acc
longest_wait-grows [] cs now acc = omega arith
longest_wait-grows (w ∷ ws) [] now acc = omega arith
longest_wait-grows (w ∷ ws) (c ∷ cs) now acc =
    let wait =
      if ltb w.limit c && ltb acc (until_next_window w now) then until_next_window w now else acc in
    ground (arith, longest_wait-grows ws cs now wait)

longest_wait-exceeded :
    (ws : List Window) (cs : List ℕ) (now : ℕ)
    → All HasSize ws
    → ltb 0 (longest_wait ws cs now 0) ≡ exceeded ws cs
longest_wait-exceeded [] cs now h = ground arith
longest_wait-exceeded (w ∷ ws) [] now h = ground arith
longest_wait-exceeded (w ∷ ws) (c ∷ cs) now h = ground (
  arith,
  longest_wait-exceeded ws cs now h.1,
  until_next-positive w now h.0,
  longest_wait-grows ws cs now (until_next_window w now),
)

judge_all-left :
    (ws : List Window) (cs : List ℕ) (now : ℕ) (a n : Decision)
    → exceeded ws cs ≡ false
    → (judge_all ws cs now (a, n)).0.remaining ≡ least_left ws cs a.remaining
unfolding judge_all
judge_all-left [] cs now a n h = refl
judge_all-left (w ∷ ws) [] now a n h = refl
judge_all-left (w ∷ ws) (c ∷ cs) now a n h =
    let next = judge w c now (a, n) in
    judge_all-left ws cs now next.0 next.1 (ground arith)
    ∙ ap (least_left ws cs) (judge-left w c now a n (ground arith))

-- With windows of positive size the limiter allows a request exactly if no window has counted more
-- than its limit; when it allows, what it says remains is the least room that the windows have left;
-- when it refuses, it asks to wait for the longest time to a next bucket among the exceeded windows.
pub decide_verdict :
    (ws : List Window) (cs : List ℕ) (now : ℕ)
    → All HasSize ws
    → ((decide ws cs now).allowed ≡ not (exceeded ws cs))
      × (exceeded ws cs ≡ false → (decide ws cs now).remaining ≡ least_left ws cs (first_limit ws))
      × (exceeded ws cs ≡ true → (decide ws cs now).retry_after ≡ longest_wait ws cs now 0)
unfolding decide pick
decide_verdict ws cs now h =
    let first : Decision = record {
      allowed = true;
      limit = first_limit ws;
      remaining = first_limit ws;
      retry_after = 0;
    } in
    ground (
      arith,
      judge_all-waits ws cs now first no_denial,
      judge_all-allowed ws cs now first no_denial refl,
      judge_all-left ws cs now first no_denial,
      longest_wait-exceeded ws cs now h,
    )

-- By the end of the wait, every exceeded window counts in another bucket.
abbrev pub RollsOver : List Window → List ℕ → ℕ → ℕ → Type 0
RollsOver (w ∷ ws) (c ∷ cs) now wait =
    (w.limit < c → bucket_step w now < bucket_step w (now + wait)) × RollsOver ws cs now wait
RollsOver _ _ now wait = Unit

next_multiple : (now t s : ℕ) → 0 < s → s - now % s ≤ t → now / s < (now + t) / s
next_multiple now t s h k = elim (Bool-cases (ltb (now / s) ((now + t) / s))) [
  | inl l ↦ ltb→lt (now / s) ((now + t) / s) l
  | inr n ↦ omega (
    arith,
    lt-div-mul-add {a = now + t} h,
    div-add-mod' now s,
    mul-le-mul_right {m = (now + t) / s} {n = now / s} s (ground arith),
  )
]

rolls :
    (w : Window) (now wait : ℕ)
    → HasSize w
    → until_next_window w now ≤ wait
    → bucket_step w now < bucket_step w (now + wait)
unfolding until_next_window bucket_step
rolls w now wait h k = next_multiple now wait w.size h k

longest_wait-RollsOver :
    (ws : List Window) (cs : List ℕ) (now acc wait : ℕ)
    → All HasSize ws
    → longest_wait ws cs now acc ≤ wait
    → RollsOver ws cs now wait
longest_wait-RollsOver [] cs now acc wait h k = tt
longest_wait-RollsOver (w ∷ ws) [] now acc wait h k = tt
longest_wait-RollsOver (w ∷ ws) (c ∷ cs) now acc wait h k =
    let acc' =
      if ltb w.limit c && ltb acc (until_next_window w now) then until_next_window w now else acc in
    (
      λ e. rolls w now wait h.0 (ground (arith, longest_wait-grows ws cs now acc')),
      longest_wait-RollsOver ws cs now acc' wait h.1 k,
    )

-- A client that was refused and waits for as long as it was told finds every window that it had
-- exceeded counting in a later bucket.
pub retry_after-RollsOver :
    (ws : List Window) (cs : List ℕ) (now : ℕ)
    → All HasSize ws
    → (decide ws cs now).allowed ≡ false
    → RollsOver ws cs now (decide ws cs now).retry_after
retry_after-RollsOver ws cs now h e =
    let (verdict, room, waits) = decide_verdict ws cs now h in
    longest_wait-RollsOver ws cs now 0 (decide ws cs now).retry_after h (ground (arith, waits))
