-- ===== src/Prelude/Decimal.antt =====
-- strconv: decimal numbers as text.
use Prim.Native.Nat.{ℕ, zero, suc, ◌+◌, ◌-◌, ◌*◌, ◌/◌, ◌%◌, ◌≤◌, ◌<◌}
use mathlib.Core.Path.{◌≡◌, refl, sym, ap, ◌∙◌}
use mathlib.Core.Bool.{Bool, false, ◌&&◌}
use mathlib.Core.Logic.{◌≢◌, inl, inr}
use mathlib.Core.List.{[], ◌∷◌, ◌++◌, append_assoc, append-nil, concat-ne-nil}
use native.Mathlib.Omega.{arith}
use weightless.Prelude.Tests.{ltb, leb, if◌then◌else◌, Bool-cases}
use weightless.Prelude.Lists.{All, All-append}
use weightless.Prelude.Text.{Bytes}

abbrev pub is_digit : ℕ → Bool
is_digit c = leb b'0' c && leb c b'9'

abbrev pub IsDigit : ℕ → Type 0
IsDigit c = (b'0' ≤ c) × (c ≤ b'9')

-- the number that digits spell behind `acc`
abbrev pub value : ℕ → Bytes → ℕ
value acc [] = acc
value acc (c ∷ s) = value (acc * 10 + (c - b'0')) s

decimal_fuel : ℕ → ℕ → Bytes
decimal_fuel zero n = []
decimal_fuel (suc f) n =
    let rest = decimal_fuel f (n / 10) in
    if ltb n 10 then (b'0' + n) ∷ [] else rest ++ (b'0' + n % 10) ∷ []

-- strconv.Itoa of a non-negative number
unfoldable pub decimal : ℕ → Bytes
unfolding decimal_fuel
decimal n = decimal_fuel (suc n) n

decimal_fuel_irrelevant : (f g n : ℕ) → n < f → n < g → decimal_fuel f n ≡ decimal_fuel g n
unfolding decimal_fuel
decimal_fuel_irrelevant zero g n hf hg = absurd (omega arith)
decimal_fuel_irrelevant (suc f) zero n hf hg = absurd (omega arith)
decimal_fuel_irrelevant (suc f) (suc g) n hf hg =
    ground (arith, decimal_fuel_irrelevant f g (n / 10))

pub decimal_step :
    (n : ℕ)
    → decimal n ≡ (if ltb n 10 then (b'0' + n) ∷ [] else decimal (n / 10) ++ (b'0' + n % 10) ∷ [])
unfolding decimal
decimal_step n = ground (arith, decimal_fuel_irrelevant n (suc (n / 10)) (n / 10))

pub value-append : (s t : Bytes) (acc : ℕ) → value acc (s ++ t) ≡ value (value acc s) t
value-append [] t acc = refl
value-append (c ∷ s) t acc = value-append s t (acc * 10 + (c - b'0'))

pub le-value : (s : Bytes) (acc : ℕ) → acc ≤ value acc s
le-value [] acc = omega arith
le-value (c ∷ s) acc = omega (arith, le-value s (acc * 10 + (c - b'0')))

-- `n` is printed by fuel above it.
value-decimal_fuel : (f n : ℕ) → n < f → value 0 (decimal_fuel f n) ≡ n
unfolding decimal_fuel
value-decimal_fuel zero n h = absurd (omega arith)
value-decimal_fuel (suc f) n h = ground (
  arith,
  value-decimal_fuel f (n / 10),
  value-append (decimal_fuel f (n / 10)) ((b'0' + n % 10) ∷ []) 0,
)

pub value-decimal : (n : ℕ) → value 0 (decimal n) ≡ n
unfolding decimal
value-decimal n = value-decimal_fuel (suc n) n (omega arith)

decimal_fuel-IsDigit : (f n : ℕ) → All IsDigit (decimal_fuel f n)
unfolding decimal_fuel
decimal_fuel-IsDigit zero n = tt
decimal_fuel-IsDigit (suc f) n = ground (
  arith,
  All-append IsDigit (decimal_fuel f (n / 10)) ((b'0' + n % 10) ∷ [])
      (decimal_fuel-IsDigit f (n / 10)) (omega arith),
)

pub decimal-IsDigit : (n : ℕ) → All IsDigit (decimal n)
unfolding decimal
decimal-IsDigit n = decimal_fuel-IsDigit (suc n) n

decimal_digit : (c : ℕ) → IsDigit c → decimal (value 0 (c ∷ [])) ≡ c ∷ []
decimal_digit c h = ground (arith, decimal_step (value 0 (c ∷ [])))

-- One more digit is one more step of the print.
decimal_extend :
    (acc c : ℕ) → 0 < acc → IsDigit c → decimal (acc * 10 + (c - b'0')) ≡ decimal acc ++ c ∷ []
decimal_extend acc c h d =
    let quotient : (acc * 10 + (c - b'0')) / 10 ≡ acc = omega arith in
    let digit : b'0' + (acc * 10 + (c - b'0')) % 10 ≡ c = omega arith in
    let big : ltb (acc * 10 + (c - b'0')) 10 ≡ false = ground arith in
    decimal_step (acc * 10 + (c - b'0')) ∙ rw (big, quotient, digit) refl

-- Digits behind a positive number extend its print.
decimal-value_behind :
    (s : Bytes) (acc : ℕ) → 0 < acc → All IsDigit s → decimal (value acc s) ≡ decimal acc ++ s
decimal-value_behind [] acc h d = sym (append-nil (decimal acc))
decimal-value_behind (c ∷ s) acc h d =
    decimal-value_behind s (acc * 10 + (c - b'0')) (omega arith) d.1
    ∙ ap (λ t. t ++ s) (decimal_extend acc c h d.0)
    ∙ append_assoc (decimal acc) (c ∷ []) s

-- No leading zero, but for "0" itself.
abbrev pub IsCanonical : Bytes → Type 0
IsCanonical [] = ⊥
IsCanonical (c ∷ []) = IsDigit c
IsCanonical (c ∷ d ∷ s) = (c ≢ b'0') × IsDigit c × All IsDigit (d ∷ s)

-- A canonical text is the print of its value.
pub decimal-value : (s : Bytes) → IsCanonical s → decimal (value 0 s) ≡ s
decimal-value [] h = absurd h
decimal-value (c ∷ []) h = decimal_digit c h
decimal-value (c ∷ d ∷ s) h =
    decimal-value_behind (d ∷ s) (value 0 (c ∷ [])) (ground (arith, h.0, h.1)) h.2
    ∙ ap (λ t. t ++ d ∷ s) (decimal_digit c h.1)

decimal_fuel-ne-nil : (f n : ℕ) → n < f → decimal_fuel f n ≢ []
unfolding decimal_fuel
decimal_fuel-ne-nil zero n h = absurd (omega arith)
decimal_fuel-ne-nil (suc f) n h =
    ground (arith, concat-ne-nil (b'0' + n % 10) (decimal_fuel f (n / 10)))

IsCanonical-concat :
    (s : Bytes) (c : ℕ) → IsCanonical s → s ≢ b'0' ∷ [] → IsDigit c → IsCanonical (s ++ c ∷ [])
IsCanonical-concat [] c h z d = absurd h
IsCanonical-concat (b ∷ []) c h z d = ((λ e. z (ap (λ t. t ∷ []) e)), h, (d, tt))
IsCanonical-concat (b ∷ a ∷ s) c h z d =
    (h.0, h.1, (h.2.0, All-append IsDigit s (c ∷ []) h.2.1 (d, tt)))

-- The print of a positive number does not spell zero.
decimal-ne-zero : (n : ℕ) → 0 < n → decimal n ≢ b'0' ∷ []
decimal-ne-zero n h e = absurd (omega (arith, value-decimal n, ap (value 0) e))

decimal_fuel-IsCanonical : (f n : ℕ) → n < f → IsCanonical (decimal_fuel f n)
unfolding decimal_fuel
decimal_fuel-IsCanonical zero n h = absurd (omega arith)
decimal_fuel-IsCanonical (suc f) n h = elim (Bool-cases (ltb n 10)) [
  | inl small ↦ rw small (ground arith)
  | inr large ↦ rw large (
      IsCanonical-concat (decimal_fuel f (n / 10)) (b'0' + n % 10)
        (decimal_fuel-IsCanonical f (n / 10) (ground arith))
        (rw (decimal_fuel_irrelevant f (suc (n / 10)) (n / 10) (ground arith) (omega arith))
          (unfold decimal in decimal-ne-zero (n / 10) (ground arith)))
        (omega arith))
]

pub decimal-IsCanonical : (n : ℕ) → IsCanonical (decimal n)
unfolding decimal
decimal-IsCanonical n = decimal_fuel-IsCanonical (suc n) n (omega arith)
