-- ===== src/Prelude/Word.antt =====
-- int64 values as bit patterns below 2 ^ 64.
use Prim.Native.Nat.{ℕ, ◌+◌, ◌-◌, ◌%◌, ◌^◌, ◌<◌}
use mathlib.Core.Path.{◌≡◌}
use mathlib.Core.Bool.{Bool}
use native.Mathlib.Omega.{arith}
use weightless.Prelude.Tests.{leb}

abbrev pub two64 : ℕ
two64 = 2 ^ 64

abbrev pub IsWord : ℕ → Type 0
IsWord a = a < two64

abbrev pub add64 : ℕ → ℕ → ℕ
add64 a b = (a + b) % two64

-- `-` on ℕ stops at 0, so the modulus is added first.
abbrev pub sub64 : ℕ → ℕ → ℕ
sub64 a b = (a + two64 - b) % two64

-- The sign bit of an int64.
abbrev pub is_negative : ℕ → Bool
is_negative a = leb (2 ^ 63) a

pub sub64-add64 :
    (a b c : ℕ) → IsWord a → IsWord b → IsWord c → add64 (sub64 (add64 a b) c) c ≡ add64 a b
sub64-add64 a b c ha hb hc = omega arith
