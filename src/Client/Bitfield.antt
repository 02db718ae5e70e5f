-- ===== src/Client/Bitfield.antt =====
-- internal/client/bitfield.go. An index is an int; `/` and `%` round towards 0, so that a negative
-- index above -8 is in byte 0 with a shift of more than 7.
pub mod Bits
pub mod Pieces
mod Tests
use Prim.Native.Nat.{bit_or}
use weightless.Prelude.{
  ℕ, zero, suc, ◌+◌, ◌-◌, ◌*◌, ◌/◌, ◌%◌, ◌^◌, Bool, true, false, not, Option, none, some, List, [],
  ◌∷◌, Bytes, ltb, ◌==◌, if◌then◌else◌, length, get_elem?, set, replicate,
}

pub data ℤ : Type 0 where
  pos negsuc : ℕ → ℤ

-- (b >> shift & 1) != 0, on a byte
abbrev pub has_bit : ℕ → ℕ → Bool
has_bit b shift = not ((b / 2 ^ shift) % 2 == 0)

-- b | 1 << shift, on a byte
abbrev pub set_bit : ℕ → ℕ → ℕ
set_bit b shift = bit_or b ((2 ^ shift) % 256)

abbrev pub bit_at : ℕ → Option ℕ → Bool
bit_at shift none = false
bit_at shift (some b) = has_bit b shift

pub has_piece : ℤ → Bytes → Bool
has_piece (pos index) b = bit_at (7 - index % 8) (get_elem? b (index / 8))
has_piece (negsuc n) b = if ltb (n + 1) 8 then bit_at (7 + (n + 1)) (get_elem? b 0) else false

abbrev pub with_bit : ℕ → ℕ → Option ℕ → Bytes → Bytes
with_bit i shift none b = b
with_bit i shift (some old) b = set b i (set_bit old shift)

pub set_piece : ℤ → Bytes → Bytes
set_piece (pos index) b = with_bit (index / 8) (7 - index % 8) (get_elem? b (index / 8)) b
set_piece (negsuc n) b = if ltb (n + 1) 8 then with_bit 0 (7 + (n + 1)) (get_elem? b 0) b else b

pub new_bitfield : ℕ → Bytes
new_bitfield n = replicate ((n + 7) / 8) 0
