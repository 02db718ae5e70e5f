-- ===== src/Prelude/Hex.antt =====
-- Lowercase hexadecimal text of bytes (encoding/hex).
use weightless.Prelude.Tests.{ltb, if◌then◌else◌}
use weightless.Prelude.Lists.{All, length}
use weightless.Prelude.Text.{Bytes, IsByte, codes}
use Prim.Native.Nat.{ℕ, ◌+◌, ◌-◌, ◌*◌, ◌/◌, ◌%◌, ◌≤◌}
use mathlib.Core.Path.{◌≡◌, refl, ap₂}
use mathlib.Core.Logic.{◌≢◌}
use mathlib.Core.List.{[], ◌∷◌}
use native.Mathlib.Omega.{arith}

-- "0123456789abcdef"[n]
unfoldable pub hex_digit : ℕ → ℕ
hex_digit n = if ltb n 10 then b'0' + n else b'a' + (n - 10)

-- hex.EncodeToString: `b >> 4` and `b & 0x0f`
unfoldable pub hex_encode : Bytes → Bytes
unfolding hex_digit
hex_encode [] = []
hex_encode (b ∷ s) = hex_digit (b / 16) ∷ hex_digit (b % 16) ∷ hex_encode s

hex_digit-injective : (m n : ℕ) → hex_digit m ≡ hex_digit n → m ≡ n
unfolding hex_digit
hex_digit-injective m n h = ground arith

tail_eq : {c d : ℕ} {s t : Bytes} → c ∷ s ≡ d ∷ t → s ≡ t
tail_eq h = cc

head_eq : {c d : ℕ} {s t : Bytes} → c ∷ s ≡ d ∷ t → c ≡ d
head_eq h = cc

-- Different byte strings have different texts.
pub hex_encode-injective : (s t : Bytes) → hex_encode s ≡ hex_encode t → s ≡ t
unfolding hex_encode
hex_encode-injective [] [] h = refl
hex_encode-injective [] (c ∷ t) h = cc
hex_encode-injective (b ∷ s) [] h = cc
hex_encode-injective (b ∷ s) (c ∷ t) h =
    let high = hex_digit-injective (b / 16) (c / 16) (head_eq h) in
    let low = hex_digit-injective (b % 16) (c % 16) (head_eq (tail_eq h)) in
    ap₂ (◌∷◌) (omega (arith, high, low)) (hex_encode-injective s t (tail_eq (tail_eq h)))

pub length-hex_encode : (s : Bytes) → length (hex_encode s) ≡ 2 * length s
unfolding hex_encode
length-hex_encode [] = refl
length-hex_encode (b ∷ s) = omega (arith, length-hex_encode s)

abbrev pub IsHexDigit : ℕ → Type 0
IsHexDigit c = (b'0' ≤ c) × (c ≤ b'f') × (c ≢ b':')

-- The text of bytes is made of characters from 0 to f, a range that holds no dot and no slash.
pub hex_encode-IsHexDigit : (s : Bytes) → All IsByte s → All IsHexDigit (hex_encode s)
unfolding hex_encode
hex_encode-IsHexDigit [] h = tt
hex_encode-IsHexDigit (b ∷ s) h =
    (ground (arith, h.0), (ground (arith, h.0), hex_encode-IsHexDigit s h.1))

sample : hex_encode (0 ∷ 255 ∷ 26 ∷ []) ≡ codes "00ff1a"
unfolding hex_encode
sample = refl
