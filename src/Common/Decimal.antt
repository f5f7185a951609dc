-- ===== src/Common/Decimal.antt =====
-- `strconv.Itoa` and `strconv.Atoi` in base 10.
use Prim.Native.Nat.{ℕ, zero, suc, ◌+◌, ◌-◌, ◌*◌, ◌/◌, ◌%◌, ◌≤◌, ◌<◌}
use mathlib.Core.Path.{◌≡◌, refl, sym, ap, ◌∙◌}
use mathlib.Core.Logic.{inl, inr}
use mathlib.Core.Bool.{false, ◌&&◌}
use mathlib.Core.List.{[], ◌∷◌}
use mathlib.Core.Option.{Option, none, some, some-injective}
use native.Mathlib.Omega.{arith}
use mdfly.Common.Bools.{ltb, leb, ◌==◌, if◌then◌else◌, Bool-cases, lt→ltb}
use mdfly.Common.Bytes.{Str, is_empty, has_byte}
use mdfly.Common.Int.{ℤ, pos, negsuc}

-- The digits of `n` in front of `rest`; fuel `n` is enough, as each step divides by ten.
unfoldable pub digits_before : ℕ → ℕ → Str → Str
digits_before zero n rest = (48 + n % 10) ∷ rest
digits_before (suc fuel) n rest =
    let more = digits_before fuel (n / 10) ((48 + n % 10) ∷ rest) in
    if ltb n 10 then (48 + n % 10) ∷ rest else more

unfoldable pub itoa : ℕ → Str
unfolding digits_before
itoa n = digits_before n n []

-- The value of a string of digits behind a value read.
unfoldable pub digits_value : ℕ → Str → Option ℕ
digits_value acc [] = some acc
digits_value acc (c ∷ s) =
    let rest = digits_value (acc * 10 + (c - b'0')) s in
    if leb b'0' c && leb c b'9' then rest else none

-- At least one digit.
unfoldable pub unsigned_value : Str → Option ℕ
unfolding digits_value
unsigned_value [] = none
unsigned_value (c ∷ s) = digits_value 0 (c ∷ s)

-- The int of a magnitude, none where it is out of range: 9223372036854775808 is 2 ^ 63.
unfoldable pub positive_int : Option ℕ → Option ℤ
positive_int none = none
positive_int (some n) = if ltb n 9223372036854775808 then some (pos n) else none

unfoldable pub negative_int : Option ℕ → Option ℤ
negative_int none = none
negative_int (some zero) = some (pos 0)
negative_int (some (suc n)) = if ltb n 9223372036854775808 then some (negsuc n) else none

-- `none` for every error of `strconv.Atoi`.
unfoldable pub atoi : Str → Option ℤ
unfolding unsigned_value positive_int negative_int
atoi [] = none
atoi (c ∷ s) =
    if c == b'-'
    then negative_int (unsigned_value s)
    else if c == b'+'
    then positive_int (unsigned_value s)
    else positive_int (unsigned_value (c ∷ s))

digits_value-digits_before :
    (fuel n : ℕ) (rest : Str)
    → n ≤ fuel
    → digits_value 0 (digits_before fuel n rest) ≡ digits_value n rest
unfolding digits_value digits_before
digits_value-digits_before zero n rest h = ground arith
digits_value-digits_before (suc fuel) n rest h = elim (Bool-cases (ltb n 10)) [
  | inl t ↦ ground arith
  | inr f ↦
      let ih = digits_value-digits_before fuel (n / 10) ((48 + n % 10) ∷ rest) (ground arith) in
      ground (arith, ih)
]

digits_before-digit :
    (fuel n : ℕ) (rest : Str)
    → (c : ℕ) × ((s : Str) × ((digits_before fuel n rest ≡ c ∷ s) × (b'0' ≤ c)))
unfolding digits_before
digits_before-digit zero n rest = (48 + n % 10, (rest, (refl, omega arith)))
digits_before-digit (suc fuel) n rest = elim (Bool-cases (ltb n 10)) [
  | inl t ↦ (48 + n % 10, (rest, (rw (t, digits_before) refl, omega arith)))
  | inr f ↦
      let (c, (s, (e, h))) = digits_before-digit fuel (n / 10) ((48 + n % 10) ∷ rest) in
      (c, (s, (rw (f, digits_before) e, h)))
]

digits_before-free :
    (x fuel n : ℕ) (rest : Str)
    → b'9' < x
    → has_byte x rest ≡ false
    → has_byte x (digits_before fuel n rest) ≡ false
unfolding has_byte digits_before
digits_before-free x zero n rest h f = ground arith
digits_before-free x (suc fuel) n rest h f = elim (Bool-cases (ltb n 10)) [
  | inl t ↦ ground arith
  | inr g ↦
      let more = digits_before-free x fuel (n / 10) ((48 + n % 10) ∷ rest) h (ground arith) in
      rw (g, digits_before) more
]

-- A string that starts with a digit is read without a sign.
atoi_digits :
    (c : ℕ) (s : Str) (n : ℕ)
    → b'0' ≤ c
    → digits_value 0 (c ∷ s) ≡ some n
    → n < 9223372036854775808
    → atoi (c ∷ s) ≡ some (pos n)
unfolding atoi unsigned_value positive_int
atoi_digits c s n digit value h =
    let plus : (c == b'+') ≡ false = ground arith in
    let minus : (c == b'-') ≡ false = ground arith in
    let small = lt→ltb n 9223372036854775808 h in rw (plus, minus, value, small) refl

-- A number below 2 ^ 63 is read back from its digits.
pub atoi-itoa : (n : ℕ) → n < 9223372036854775808 → atoi (itoa n) ≡ some (pos n)
unfolding itoa digits_value
atoi-itoa n h =
    let (c, (s, (e, digit))) = digits_before-digit n n [] in
    let value = digits_value-digits_before n n [] (omega arith) in
    rw e (atoi_digits c s n digit (rw e at value) h)

pub itoa-injective : (n m : ℕ) → itoa n ≡ itoa m → n ≡ m
unfolding itoa digits_value
itoa-injective n m e =
    let left = digits_value-digits_before n n [] (omega arith) in
    let right = digits_value-digits_before m m [] (omega arith) in
    some-injective n m (sym left ∙ ap (digits_value 0) e ∙ right)

pub itoa-nonempty : (n : ℕ) → is_empty (itoa n) ≡ false
unfolding itoa is_empty
itoa-nonempty n = let (c, (s, (e, digit))) = digits_before-digit n n [] in rw e refl

pub itoa-free : (x n : ℕ) → b'9' < x → has_byte x (itoa n) ≡ false
unfolding itoa has_byte
itoa-free x n h = digits_before-free x n n [] h refl
