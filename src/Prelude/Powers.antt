-- ===== src/Prelude/Powers.antt =====
-- Powers of two by recursion on the exponent, and the binary digits of `bit_and`.
use Prim.Native.Nat.{
  ℕ, zero, suc, ◌+◌, ◌*◌, ◌/◌, ◌%◌, ◌≤◌, ◌<◌, min, bit_and, digits, bit_and-bitwise,
}
use mathlib.Core.Path.{◌≡◌, refl, sym, ap, ◌∙◌}
use native.Mathlib.Omega.{arith}

abbrev pub exp2 : ℕ → ℕ
exp2 zero = 1
exp2 (suc k) = 2 * exp2 k

pub lt-zero-exp2 : (k : ℕ) → 0 < exp2 k
lt-zero-exp2 zero = omega arith
lt-zero-exp2 (suc k) = omega (arith, lt-zero-exp2 k)

-- More rounds than digits change nothing.
more_rounds :
    (f g a b : ℕ) → a ≤ f → a ≤ g → digits (λ x. zero) min f a b ≡ digits (λ x. zero) min g a b
more_rounds zero zero a b hf hg = refl
more_rounds zero (suc g) zero b hf hg = refl
more_rounds (suc f) zero zero b hf hg = refl
more_rounds (suc f) (suc g) zero b hf hg = refl
more_rounds zero (suc g) (suc a) b hf hg = absurd (omega (arith, hf))
more_rounds (suc f) zero (suc a) b hf hg = absurd (omega (arith, hg))
more_rounds (suc f) (suc g) (suc a) b hf hg =
    let halves = more_rounds f g (suc a / 2) (b / 2) (omega (arith, hf)) (omega (arith, hg)) in
    ap (λ n. n * 2 + min (suc a % 2) (b % 2)) halves

-- The lowest digit, and the others.
pub bit_and-halves :
    (a b : ℕ) → 0 < a → bit_and a b ≡ bit_and (a / 2) (b / 2) * 2 + min (a % 2) (b % 2)
bit_and-halves zero b h = absurd (omega (arith, h))
bit_and-halves (suc a) b h =
    let rest = more_rounds a (suc a / 2) (suc a / 2) (b / 2) (omega arith) (omega arith) in
    (λ i. bit_and-bitwise (suc a) b i)
    ∙ ap (λ n. n * 2 + min (suc a % 2) (b % 2))
        (rest ∙ sym (λ i. bit_and-bitwise (suc a / 2) (b / 2) i))

pub lt-exp2 : (k : ℕ) → k < exp2 k
lt-exp2 zero = omega arith
lt-exp2 (suc k) = omega (arith, lt-exp2 k)

pub lt_of_exp2 : (j k : ℕ) → exp2 j < exp2 k → j < k
lt_of_exp2 j zero h = absurd (omega (arith, h, lt-zero-exp2 j))
lt_of_exp2 zero (suc k) h = omega arith
lt_of_exp2 (suc j) (suc k) h = omega (arith, lt_of_exp2 j k (omega (arith, h)))
