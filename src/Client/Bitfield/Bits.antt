-- ===== src/Client/Bitfield/Bits.antt =====
-- The bits of a byte after one of them was set, by evaluation of all cases.
use weightless.Prelude.{
  ℕ, zero, suc, ◌<◌, ◌≡◌, refl, sym, Bool, true, false, ◌&&◌, ◌||◌, ltb, ltb→lt, ◌==◌, arith,
  Bool-cases, inl, inr, if◌then◌else◌, IsByte,
}
use weightless.Client.Bitfield.{has_bit, set_bit}

abbrev same : Bool → Bool → Bool
same true b = b
same false true = false
same false false = true

-- Whether a test holds of each number under a bound, tried from the top.
holds_under : (ℕ → Bool) → ℕ → Bool
holds_under test zero = true
holds_under test (suc top) = let below = holds_under test top in if test top then below else false

holds_under-at :
    (test : ℕ → Bool) (top k : ℕ) → holds_under test top ≡ true → k < top → test k ≡ true
unfolding holds_under
holds_under-at test zero k h less = absurd (omega arith)
holds_under-at test (suc top) k h less = elim (Bool-cases (k == top)) [
  | inl last ↦ ground arith
  | inr other ↦ holds_under-at test top k (ground arith) (ground arith)
]

abbrev agrees : ℕ → ℕ → ℕ → Bool
agrees i j b = same (has_bit (set_bit b i) j) (i == j || has_bit b j) && ltb (set_bit b i) 256

table : holds_under (λ i. holds_under (λ j. holds_under (agrees i j) 256) 8) 8 ≡ true
unfolding holds_under
table = refl

agrees_all : (i j b : ℕ) → i < 8 → j < 8 → IsByte b → agrees i j b ≡ true
agrees_all i j b hi hj hb =
    let row =
      holds_under-at (λ i. holds_under (λ j. holds_under (agrees i j) 256) 8) 8 i table hi in
    let cell = holds_under-at (λ j. holds_under (agrees i j) 256) 8 j row hj in
    holds_under-at (agrees i j) 256 b cell hb

same→≡ : (a b : Bool) → same a b ≡ true → a ≡ b
same→≡ true b h = sym h
same→≡ false true h = absurd cc
same→≡ false false h = refl

and_both : (a b : Bool) → (a && b) ≡ true → (a ≡ true) × (b ≡ true)
and_both true b h = (refl, h)
and_both false b h = absurd cc

pub has_bit-set_bit :
    (i j b : ℕ)
    → i < 8
    → j < 8
    → IsByte b
    → (has_bit (set_bit b i) j ≡ (i == j || has_bit b j)) × IsByte (set_bit b i)
has_bit-set_bit i j b hi hj hb =
    let (equal, small) = and_both _ _ (agrees_all i j b hi hj hb) in
    (same→≡ _ _ equal, ltb→lt (set_bit b i) 256 small)
