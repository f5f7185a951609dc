-- ===== src/Common/Hex.antt =====
-- encoding/hex, as the code uses it: `EncodeToString` and `DecodeString`.
use Prim.Native.Nat.{ℕ, ◌+◌, ◌-◌, ◌*◌, ◌/◌, ◌%◌, ◌<◌}
use mathlib.Core.Path.{◌≡◌, refl}
use mathlib.Core.Bool.{false, ◌&&◌}
use mathlib.Core.List.{[], ◌∷◌}
use mathlib.Core.Option.{Option, none, some}
use native.Mathlib.Omega.{arith}
use mdfly.Common.Bools.{ltb, leb, if◌then◌else◌}
use mdfly.Common.Lists.{All}
use mdfly.Common.Bytes.{Str, has_byte}

hex_digit : ℕ → ℕ
hex_digit n = if ltb n 10 then 48 + n else 87 + n

hex_value : ℕ → Option ℕ
hex_value c =
    if leb b'0' c && leb c b'9'
    then some (c - 48)
    else if leb b'a' c && leb c b'f'
    then some (c - 87)
    else if leb b'A' c && leb c b'F'
    then some (c - 55)
    else none

unfoldable pub encode : Str → Str
unfolding hex_digit
encode [] = []
encode (b ∷ bs) = hex_digit (b / 16) ∷ hex_digit (b % 16) ∷ encode bs

byte_of : Option ℕ → Option ℕ → Option Str → Option Str
byte_of (some h) (some l) (some rest) = some ((h * 16 + l) ∷ rest)
byte_of _ _ _ = none

unfoldable pub decode : Str → Option Str
unfolding hex_value byte_of
decode [] = some []
decode (_ ∷ []) = none
decode (a ∷ b ∷ s) = byte_of (hex_value a) (hex_value b) (decode s)

pub IsByte : ℕ → Type 0
IsByte b = b < 256

hex_value-hex_digit : (n : ℕ) → n < 16 → hex_value (hex_digit n) ≡ some n
unfolding hex_value hex_digit
hex_value-hex_digit n h = ground arith

pub decode-encode : (bs : Str) → All (λ b. b < 256) bs → decode (encode bs) ≡ some bs
unfolding encode decode
decode-encode [] h = refl
decode-encode (b ∷ bs) h = ground (arith, decode-encode bs h.1)

-- Hex digits are no colons.
pub encode-free : (s : Str) → has_byte b':' (encode s) ≡ false
unfolding encode has_byte hex_digit
encode-free [] = refl
encode-free (c ∷ s) = ground (arith, encode-free s)
