-- ===== src/Client/Bitfield/Pieces.antt =====
-- The pieces of a bitfield after one of them was set, and those of a new one.
use weightless.Prelude.{
  ℕ, zero, suc, ◌+◌, ◌-◌, ◌/◌, ◌%◌, ◌^◌, ◌<◌, ◌≡◌, refl, sym, ap, ◌∙◌, subst, Bool, true, false,
  ◌&&◌, ◌||◌, none, some, List, [], ◌∷◌, Bytes, ltb, ◌==◌, ==_iff, if◌then◌else◌, length, get_elem?,
  set, length-set, replicate, length-replicate, arith, All, IsByte, Bool-cases, Option-cases, inl,
  inr,
}
use native.Mathlib.Nat.{zero-div}
use weightless.Client.Bitfield.{pos, set_bit, bit_at, with_bit, has_piece, set_piece, new_bitfield}
use weightless.Client.Bitfield.Bits.{has_bit-set_bit}

the_byte : {a b : ℕ} → some a ≡ some b → a ≡ b
the_byte h = cc

get_elem?-IsByte : (b : Bytes) (i : ℕ) {v : ℕ} → All IsByte b → get_elem? b i ≡ some v → IsByte v
get_elem?-IsByte [] i k h = absurd cc
get_elem?-IsByte (c ∷ b) zero (kc, k) h = subst IsByte (the_byte h) kc
get_elem?-IsByte (c ∷ b) (suc i) (kc, k) h = get_elem?-IsByte b i k h

get_elem?-set :
    (b : Bytes) (i j v : ℕ) {old : ℕ}
    → get_elem? b i ≡ some old
    → get_elem? (set b i v) j ≡ (if i == j then some v else get_elem? b j)
get_elem?-set [] i j v h = absurd cc
get_elem?-set (c ∷ b) zero zero v h = refl
get_elem?-set (c ∷ b) zero (suc j) v h = ground arith
get_elem?-set (c ∷ b) (suc i) zero v h = ground arith
get_elem?-set (c ∷ b) (suc i) (suc j) v h = ground (arith, get_elem?-set b i j v h)

ltb-none : (b : Bytes) (m : ℕ) → get_elem? b m ≡ none → ltb m (length b) ≡ false
ltb-none [] m h = ground arith
ltb-none (c ∷ b) zero h = absurd cc
ltb-none (c ∷ b) (suc m) h = ground (arith, ltb-none b m h)

ltb-some : (b : Bytes) (m : ℕ) {v : ℕ} → get_elem? b m ≡ some v → ltb m (length b) ≡ true
ltb-some [] m h = absurd cc
ltb-some (c ∷ b) zero h = ground arith
ltb-some (c ∷ b) (suc m) h = ground (arith, ltb-some b m h)

-- Bit i of byte m is set: what bit j of byte n is.
bit_at-with_bit :
    (b : Bytes) (m i n j : ℕ)
    → All IsByte b
    → i < 8
    → j < 8
    → bit_at j (get_elem? (with_bit m i (get_elem? b m) b) n)
      ≡ ((ltb m (length b) && (m == n && i == j)) || bit_at j (get_elem? b n))
bit_at-with_bit b m i n j k hi hj = elim (Option-cases (get_elem? b m)) [
  | inl e ↦ rw (e, ltb-none b m e) refl
  | inr (old, e) ↦
      let (bits, small) = has_bit-set_bit i j old hi hj (get_elem?-IsByte b m k e) in
      let there = ltb-some b m e in
      elim (Bool-cases (m == n)) [
        | inl same ↦
            let found : get_elem? b n ≡ some old =
              ap (get_elem? b) (sym ((==_iff m n).0 same)) ∙ e in
            rw (e, get_elem?-set b m n (set_bit old i) e, there, same, found) bits
        | inr other ↦ rw (e, get_elem?-set b m n (set_bit old i) e, there, other) refl
      ]
]

set-IsByte : (b : Bytes) (m v : ℕ) → All IsByte b → IsByte v → All IsByte (set b m v)
set-IsByte [] m v k h = tt
set-IsByte (c ∷ b) zero v (kc, k) h = (h, k)
set-IsByte (c ∷ b) (suc m) v (kc, k) h = (kc, set-IsByte b m v k h)

with_bit-IsByte :
    (b : Bytes) (m i : ℕ)
    → All IsByte b
    → i < 8
    → All IsByte (with_bit m i (get_elem? b m) b)
      × (length (with_bit m i (get_elem? b m) b) ≡ length b)
with_bit-IsByte b m i k hi = elim (Option-cases (get_elem? b m)) [
  | inl e ↦ rw e (k, refl)
  | inr (old, e) ↦ rw e (
    set-IsByte b m (set_bit old i) k (has_bit-set_bit i i old hi hi (get_elem?-IsByte b m k e)).1,
    length-set b m (set_bit old i),
  )
]

same_bit : (i j : ℕ) → ((i / 8) == (j / 8) && (7 - i % 8) == (7 - j % 8)) ≡ (i == j)
same_bit i j = elim (Bool-cases (i == j)) [ inl e ↦ ground arith | inr e ↦ ground arith ]

has_piece-set_piece :
    (b : Bytes) (i j : ℕ)
    → All IsByte b
    → has_piece (pos j) (set_piece (pos i) b)
      ≡ ((ltb (i / 8) (length b) && i == j) || has_piece (pos j) b)
unfolding has_piece set_piece
has_piece-set_piece b i j k =
    bit_at-with_bit b (i / 8) (7 - i % 8) (j / 8) (7 - j % 8) k (omega arith) (omega arith)
    ∙ rw (same_bit i j) refl

set_piece-IsByte :
    (b : Bytes) (i : ℕ)
    → All IsByte b
    → All IsByte (set_piece (pos i) b) × (length (set_piece (pos i) b) ≡ length b)
unfolding set_piece
set_piece-IsByte b i k = with_bit-IsByte b (i / 8) (7 - i % 8) k (omega arith)

-- The pieces set one after the other, as the messages about them come in.
abbrev pub set_pieces : List ℕ → Bytes → Bytes
set_pieces [] b = b
set_pieces (i ∷ pieces) b = set_pieces pieces (set_piece (pos i) b)

abbrev pub is_in : ℕ → List ℕ → Bool
is_in j [] = false
is_in j (i ∷ pieces) = i == j || is_in j pieces

has_piece-set_pieces :
    (pieces : List ℕ) (b : Bytes) (j : ℕ)
    → All IsByte b
    → has_piece (pos j) (set_pieces pieces b)
      ≡ ((ltb (j / 8) (length b) && is_in j pieces) || has_piece (pos j) b)
has_piece-set_pieces [] b j k = ground arith
has_piece-set_pieces (i ∷ pieces) b j k =
    let (bytes, size) = set_piece-IsByte b i k in
    ground (
      arith,
      has_piece-set_pieces pieces (set_piece (pos i) b) j bytes,
      has_piece-set_piece b i j k,
      size,
    )

zeros-IsByte : (n : ℕ) → All IsByte (replicate n 0)
zeros-IsByte zero = tt
zeros-IsByte (suc n) = (omega arith, zeros-IsByte n)

no_bit : (n i shift : ℕ) → bit_at shift (get_elem? (replicate n 0) i) ≡ false
no_bit zero i shift = refl
no_bit (suc n) zero shift = rw (zero-div (2 ^ shift)) refl
no_bit (suc n) (suc i) shift = no_bit n i shift

-- A new bitfield for n pieces in which some indices were set, in any order and with repetitions, has
-- exactly those that have room in its bytes: every index has its own bit, and an index beyond the
-- last byte sets none.
pub has_piece-set_pieces-new_bitfield :
    (n : ℕ) (pieces : List ℕ) (j : ℕ)
    → has_piece (pos j) (set_pieces pieces (new_bitfield n))
      ≡ (ltb (j / 8) ((n + 7) / 8) && is_in j pieces)
unfolding new_bitfield has_piece
has_piece-set_pieces-new_bitfield n pieces j =
    let found = has_piece-set_pieces pieces (new_bitfield n) j (zeros-IsByte ((n + 7) / 8)) in
    let size = length-replicate {A = ℕ} ((n + 7) / 8) 0 in
    ground (arith, found, size, no_bit ((n + 7) / 8) (j / 8) (7 - j % 8))
