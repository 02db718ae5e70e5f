-- ===== src/Prelude/Strconv.antt =====
-- strconv.ParseUint and strconv.ParseInt at base 10; a syntax error and a range error are both `none`.
use weightless.Prelude.Tests.{ltb, ◌==◌, if◌then◌else◌}
use weightless.Prelude.Lists.{All}
use weightless.Prelude.Text.{Bytes}
use weightless.Prelude.Decimal.{
  is_digit, IsDigit, IsCanonical, value, decimal, value-decimal, decimal-IsDigit,
  decimal-IsCanonical, le-value,
}
use Prim.Native.Nat.{ℕ, ◌+◌, ◌-◌, ◌*◌, ◌%◌, ◌^◌, ◌≤◌, ◌<◌}
use mathlib.Core.Path.{◌≡◌, refl}
use mathlib.Core.List.{[], ◌∷◌}
use mathlib.Core.Option.{Option, none, some}
use native.Mathlib.Omega.{arith}

scan : ℕ → ℕ → Bytes → Option ℕ
scan top acc [] = some acc
scan top acc (c ∷ s) =
    let n = acc * 10 + (c - b'0') in
    let rest = scan top n s in if is_digit c then (if ltb top n then none else rest) else none

-- An unsigned number up to `top`; leading zeros are allowed.
unfoldable pub parse_uint : ℕ → Bytes → Option ℕ
unfolding scan
parse_uint top [] = none
parse_uint top (c ∷ s) = scan top 0 (c ∷ s)

abbrev pub negated : Option ℕ → Option ℕ
negated none = none
negated (some n) = some ((2 ^ 64 - n) % 2 ^ 64)

-- An int64 as its bit pattern.
unfoldable pub parse_int : Bytes → Option ℕ
unfolding parse_uint
parse_int [] = none
parse_int (c ∷ s) =
    if c == b'+'
    then parse_uint (2 ^ 63 - 1) s
    else if c == b'-'
    then negated (parse_uint (2 ^ 63) s)
    else parse_uint (2 ^ 63 - 1) (c ∷ s)

scan_sound :
    (top : ℕ) (s : Bytes) (acc : ℕ) {n : ℕ}
    → acc ≤ top
    → scan top acc s ≡ some n
    → (n ≡ value acc s) × (n ≤ top) × All IsDigit s
unfolding scan
scan_sound top [] acc a h = ground arith
scan_sound top (c ∷ s) acc {n} a h =
    ground (arith, scan_sound top s (acc * 10 + (c - b'0')) {n = n})

scan_complete :
    (top : ℕ) (s : Bytes) (acc : ℕ)
    → All IsDigit s
    → value acc s ≤ top
    → scan top acc s ≡ some (value acc s)
unfolding scan
scan_complete top [] acc d h = refl
scan_complete top (c ∷ s) acc d h = ground (
  arith,
  d.0,
  le-value s (acc * 10 + (c - b'0')),
  scan_complete top s (acc * 10 + (c - b'0')) d.1,
)

pub parse_uint-le : (top : ℕ) (s : Bytes) {n : ℕ} → parse_uint top s ≡ some n → n ≤ top
unfolding parse_uint
parse_uint-le top [] h = cc
parse_uint-le top (c ∷ s) {n} h = (scan_sound top (c ∷ s) 0 {n = n} (omega arith) h).1

-- A printed number is read back.
pub parse_uint-decimal : (top n : ℕ) → n ≤ top → parse_uint top (decimal n) ≡ some n
parse_uint-decimal top n h =
    go (decimal n) (decimal-IsCanonical n) (decimal-IsDigit n) (value-decimal n)
  where
    go : (s : Bytes) → IsCanonical s → All IsDigit s → value 0 s ≡ n → parse_uint top s ≡ some n
    go [] c d e = absurd c
    go (c ∷ s) _ d e = unfold parse_uint in ground (arith, scan_complete top (c ∷ s) 0 d)

parse_int-plain :
    (s : Bytes) → IsCanonical s → All IsDigit s → parse_int s ≡ parse_uint (2 ^ 63 - 1) s
unfolding parse_int
parse_int-plain [] c d = absurd c
parse_int-plain (c ∷ s) _ d = ground (arith, d.0)

pub parse_int-decimal : (n : ℕ) → n < 2 ^ 63 → parse_int (decimal n) ≡ some n
parse_int-decimal n h =
    rw (parse_int-plain (decimal n) (decimal-IsCanonical n) (decimal-IsDigit n))
      (parse_uint-decimal (2 ^ 63 - 1) n (omega arith))

pub parse_int-lt : (s : Bytes) {n : ℕ} → parse_int s ≡ some n → n < 2 ^ 64
parse_int-lt [] h = unfold parse_int in cc
parse_int-lt (c ∷ s) {n} h =
    unfold parse_int in
    ground (arith, parse_uint-le (2 ^ 63 - 1) s {n = n}, parse_uint-le (2 ^ 63 - 1) (c ∷ s) {n = n})

signs : (parse_int (0x2d ∷ 0x31 ∷ []) ≡ some (2 ^ 64 - 1)) × (parse_int (0x2b ∷ 0x37 ∷ []) ≡ some 7)
unfolding parse_int
signs = (refl, refl)
