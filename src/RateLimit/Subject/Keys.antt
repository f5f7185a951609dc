-- ===== src/RateLimit/Subject/Keys.antt =====
-- Counters are not shared: the key of a counter tells the subject, the window and the step.
use mathlib.Core.List.{append_assoc}
use mathlib.Core.Option.{some-injective}
use mdfly.Common.{
  ◌==◌, Bool-cases, take, Str, codes, is_empty, has_byte, ℕ, zero, suc, ◌≡◌, refl, sym, ap, ◌∙◌,
  inl, inr, false, [], ◌∷◌, ◌++◌, arith,
}
use mdfly.Common.Hex.{encode, encode-free}
use mdfly.Common.Split.{cut, cut-at}
use mdfly.Common.Decimal.{itoa, itoa-injective}
use mdfly.Httpx.{bearer_token}
use mdfly.RateLimit.Subject.{
  Request, Netip, replace_byte, fingerprint, client_ip, rate_limit_subject, bucket_key,
}
use mdfly.Jobs.Runner.{names}

replace_byte-free : (a b : ℕ) (s : Str) → (a == b) ≡ false → has_byte a (replace_byte a b s) ≡ false
unfolding replace_byte has_byte
replace_byte-free a b [] h = refl
replace_byte-free a b (c ∷ s) h = ground (arith, replace_byte-free a b s h)

take-free : (a n : ℕ) (s : Str) → has_byte a s ≡ false → has_byte a (take n s) ≡ false
unfolding has_byte
take-free a zero s h = refl
take-free a (suc n) [] h = refl
take-free a (suc n) (c ∷ s) h = ground (arith, take-free a n s)

-- A subject is a kind and a name, around a colon, which neither of them has.
abbrev IsSubject : Str → Type 0
IsSubject s =
    (kind : Str) × ((name : Str) × ((s ≡ kind ++ (b':' ∷ name))
        × ((has_byte b':' kind ≡ false) × (has_byte b':' name ≡ false))))

split_once :
    (a b s t : Str)
    → has_byte b':' a ≡ false
    → has_byte b':' b ≡ false
    → a ++ (b':' ∷ s) ≡ b ++ (b':' ∷ t)
    → (a ≡ b) × (s ≡ t)
split_once a b s t f g e =
    let same = sym (cut-at b':' a s f) ∙ ap (cut b':') e ∙ cut-at b':' b t g in
    (ap (λ p. p.0) same, some-injective s t (ap (λ p. p.1) same))

subject_once :
    (s t u v : Str)
    → IsSubject s
    → IsSubject t
    → s ++ (b':' ∷ u) ≡ t ++ (b':' ∷ v)
    → (s ≡ t) × (u ≡ v)
subject_once s t u v (k, (n, (is_s, (kf, nf)))) (l, (m, (is_t, (lf, mf)))) e =
    let left = ap (λ x. x ++ (b':' ∷ u)) is_s ∙ append_assoc k (b':' ∷ n) (b':' ∷ u) in
    let right = ap (λ x. x ++ (b':' ∷ v)) is_t ∙ append_assoc l (b':' ∷ m) (b':' ∷ v) in
    let (kinds, rest) =
      split_once k l (n ++ (b':' ∷ u)) (m ++ (b':' ∷ v)) kf lf (sym left ∙ e ∙ right) in
    let (names, last) = split_once n m u v nf mf rest in
    (is_s ∙ ap (λ x. x ++ (b':' ∷ n)) kinds ∙ ap (λ x. l ++ (b':' ∷ x)) names ∙ sym is_t, last)

module _ {Addr : Type 0} (netip : Netip Addr) (sha256 : Str → Str) where
  rate_limit_subject-IsSubject : (r : Request) → IsSubject (rate_limit_subject netip sha256 r)
  unfolding rate_limit_subject fingerprint
  rate_limit_subject-IsSubject r = elim (Bool-cases (is_empty (bearer_token r.authorization))) [
    | inl t ↦ (
      codes "ip",
      (
        replace_byte b':' b'.' (client_ip netip r),
        (
          rw (t, rate_limit_subject) refl,
          (refl, replace_byte-free b':' b'.' (client_ip netip r) refl),
        ),
      ),
    )
    | inr f ↦ (
      codes "token",
      (
        fingerprint sha256 (bearer_token r.authorization),
        (
          rw (f, rate_limit_subject) refl,
          (
            refl,
            take-free b':' 16 (encode (sha256 (bearer_token r.authorization)))
                (encode-free (sha256 (bearer_token r.authorization))),
          ),
        ),
      ),
    )
  ]

  -- Requests of different subjects, windows with different names, and different steps have different
  -- counters; if the names of the windows have no colon.
  pub bucket_key-injective :
      (r r' : Request) (name name' : Str) (step step' : ℕ)
      → has_byte b':' name ≡ false
      → has_byte b':' name' ≡ false
      → bucket_key (rate_limit_subject netip sha256 r) name step
        ≡ bucket_key (rate_limit_subject netip sha256 r') name' step'
      → (rate_limit_subject netip sha256 r ≡ rate_limit_subject netip sha256 r')
        × ((name ≡ name') × (step ≡ step'))
  unfolding bucket_key
  bucket_key-injective r r' name name' step step' n n' e =
      let (subjects, rest) =
        subject_once (rate_limit_subject netip sha256 r) (rate_limit_subject netip sha256 r')
          (name ++ (b':' ∷ itoa step)) (name' ++ (b':' ∷ itoa step'))
          (rate_limit_subject-IsSubject r) (rate_limit_subject-IsSubject r') (cc) in
      let (names, steps) = split_once name name' (itoa step) (itoa step') n n' rest in
      (subjects, (names, itoa-injective step step' steps))
