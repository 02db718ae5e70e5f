-- ===== src/Prelude/Text.antt =====
-- Go strings are byte sequences: lists of numbers below 256, compared byte by byte.
use Prim.Native.Nat.{ℕ, ◌<◌}
use Prim.Native.Char.{code}
use Prim.Native.String.{String}
use mathlib.Core.Path.{◌≡◌, refl}
use mathlib.Core.Logic.{◌↔◌}
use mathlib.Core.Bool.{Bool, true, false}
use mathlib.Core.List.{List, [], ◌∷◌}
use mathlib.Core.Option.{Option, none, some}
use native.Mathlib.Omega.{arith}
use weightless.Prelude.Tests.{◌==◌, if◌then◌else◌}

abbrev pub Bytes : Type 0
Bytes = List ℕ

-- The bytes of an ASCII literal.
abbrev pub codes : String → Bytes
codes String.[] = []
codes (String.◌∷◌ c s) = code c ∷ codes s

infix 50 ◌===◌
abbrev pub ◌===◌ : Bytes → Bytes → Bool
[] === [] = true
[] === (d ∷ t) = false
(c ∷ s) === [] = false
(c ∷ s) === (d ∷ t) = if c == d then (s === t) else false

===→≡ : (s t : Bytes) → (s === t) ≡ true → s ≡ t
===→≡ [] [] h = refl
===→≡ [] (d ∷ t) h = ground arith
===→≡ (c ∷ s) [] h = ground arith
===→≡ (c ∷ s) (d ∷ t) h = ground (arith, ===→≡ s t)

pub ===_refl : (s : Bytes) → (s === s) ≡ true
===_refl [] = refl
===_refl (c ∷ s) = ground (arith, ===_refl s)

≡→=== : (s t : Bytes) → s ≡ t → (s === t) ≡ true
≡→=== s t h = rw h (===_refl t)

pub ===_iff : (s t : Bytes) → ((s === t) ≡ true) ↔ (s ≡ t)
===_iff s t = (===→≡ s t, ≡→=== s t)

abbrev pub IsByte : ℕ → Type 0
IsByte b = b < 256

-- strings.TrimPrefix: what follows the prefix, if the text begins with it.
abbrev pub after_prefix : Bytes → Bytes → Option Bytes
after_prefix [] s = some s
after_prefix (p ∷ ps) [] = none
after_prefix (p ∷ ps) (c ∷ s) = if p == c then after_prefix ps s else none
