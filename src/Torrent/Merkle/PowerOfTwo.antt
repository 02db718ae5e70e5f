-- ===== src/Torrent/Merkle/PowerOfTwo.antt =====
-- isPowerOfTwo and nextPowerOfTwo against the powers of two.
use Prim.Native.Nat.{bit_and}
use weightless.Prelude.{
  ℕ, zero, suc, ◌+◌, ◌-◌, ◌*◌, ◌/◌, ◌%◌, ◌≤◌, ◌<◌, ◌≡◌, ◌↔◌, refl, sym, ap, ◌∙◌, true, ltb, ◌==◌,
  arith, Bool-cases, inl, inr,
}
use weightless.Prelude.Powers.{exp2, lt-zero-exp2, bit_and-halves}
use weightless.Torrent.Merkle.{
  is_power_of_two, double_until, next_power_of_two, trailing_zeros_up_to,
}

bit_and_self : (fuel n : ℕ) → n ≤ fuel → bit_and n n ≡ n
bit_and_self fuel zero h = refl
bit_and_self zero (suc n) h = absurd (omega (arith, h))
bit_and_self (suc fuel) (suc n) h = omega (
  arith,
  bit_and-halves (suc n) (suc n) (omega arith),
  bit_and_self fuel (suc n / 2) (omega (arith, h)),
)

-- A number that shares no digit with its predecessor has one digit.
one_digit : (fuel n : ℕ) → n ≤ fuel → 0 < n → bit_and n (n - 1) ≡ 0 → (k : ℕ) × (n ≡ exp2 k)
one_digit zero n h pos e = absurd (omega (arith, h, pos))
one_digit (suc fuel) n h pos e = elim (Bool-cases (n % 2 == 0)) [
  | inl even ↦
      let half : (n - 1) / 2 ≡ n / 2 - 1 = ground arith in
      let rest : bit_and (n / 2) (n / 2 - 1) ≡ 0 =
        ap (bit_and (n / 2)) (sym half) ∙ omega (arith, bit_and-halves n (n - 1) pos, e) in
      let (k, double) = one_digit fuel (n / 2) (omega (arith, h, pos)) (ground arith) rest in
      (suc k, ground arith)
  | inr odd ↦
      let half : (n - 1) / 2 ≡ n / 2 = ground arith in
      let same : bit_and (n / 2) ((n - 1) / 2) ≡ n / 2 =
        ap (bit_and (n / 2)) half ∙ bit_and_self (n / 2) (n / 2) (omega arith) in
      (0, ground (arith, bit_and-halves n (n - 1) pos, same, e))
]

digit_of_power : (k : ℕ) → bit_and (exp2 k) (exp2 k - 1) ≡ 0
digit_of_power zero = refl
digit_of_power (suc k) =
    let pos = lt-zero-exp2 k in
    let halves = bit_and-halves (exp2 (suc k)) (exp2 (suc k) - 1) (omega (arith, pos)) in
    let left : (2 * exp2 k) / 2 ≡ exp2 k = omega arith in
    let right : (2 * exp2 k - 1) / 2 ≡ exp2 k - 1 = omega (arith, pos) in
    let rest : bit_and ((2 * exp2 k) / 2) ((2 * exp2 k - 1) / 2) ≡ 0 =
      ap (λ a. bit_and a ((2 * exp2 k - 1) / 2)) left
      ∙ ap (bit_and (exp2 k)) right
      ∙ digit_of_power k in
    omega (arith, halves, rest)

-- isPowerOfTwo accepts exactly the powers of two.
pub is_power_of_two_iff : (n : ℕ) → (is_power_of_two n ≡ true) ↔ ((k : ℕ) × (n ≡ exp2 k))
unfolding is_power_of_two
is_power_of_two_iff n = (
  λ h. one_digit n n (omega arith) (ground arith) (ground arith),
  λ (k, e). rw e (ground (arith, digit_of_power k, lt-zero-exp2 k)),
)

double_until-exp2 :
    (fuel n j : ℕ)
    → n ≤ exp2 j + fuel
    → exp2 j < 2 * n
    → (k : ℕ) × (double_until fuel n (exp2 j) ≡ exp2 k) × (n ≤ exp2 k) × (exp2 k < 2 * n)
unfolding double_until
double_until-exp2 zero n j h low = (j, refl, omega (arith, h), low)
double_until-exp2 (suc fuel) n j h low = elim (Bool-cases (ltb (exp2 j) n)) [
  | inl more ↦
      rw (more, double_until)
        (double_until-exp2 fuel n (suc j) (ground (arith, lt-zero-exp2 j)) (ground arith))
  | inr done ↦ rw (done, double_until) (j, refl, ground arith, low)
]

-- The result is the least power of two that is not below a positive n.
pub next_power_of_two-exp2 :
    (n : ℕ) → 0 < n → (k : ℕ) × (next_power_of_two n ≡ exp2 k) × (n ≤ exp2 k) × (exp2 k < 2 * n)
unfolding next_power_of_two
next_power_of_two-exp2 n pos = elim (Bool-cases (is_power_of_two n)) [
  | inl power ↦
      let (k, e) = (is_power_of_two_iff n).0 power in
      rw power (k, e, omega (arith, e), omega (arith, e, pos))
  | inr other ↦ rw other (double_until-exp2 n n 0 (omega arith) (omega (arith, pos)))
]

pub trailing_zeros_up_to-exp2 : (bits k : ℕ) → k ≤ bits → trailing_zeros_up_to bits (exp2 k) ≡ k
unfolding trailing_zeros_up_to
trailing_zeros_up_to-exp2 zero zero h = refl
trailing_zeros_up_to-exp2 zero (suc k) h = absurd (omega (arith, h))
trailing_zeros_up_to-exp2 (suc bits) zero h = refl
trailing_zeros_up_to-exp2 (suc bits) (suc k) h =
    let even : ((2 * exp2 k) % 2 == 0) ≡ true = ground arith in
    let half : (2 * exp2 k) / 2 ≡ exp2 k = omega arith in
    rw (even, half, trailing_zeros_up_to)
      (ap suc (trailing_zeros_up_to-exp2 bits k (omega (arith, h))))
