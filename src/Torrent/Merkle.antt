-- ===== src/Torrent/Merkle.antt =====
-- buildMerkleTree, extractPieceLayer, isPowerOfTwo and nextPowerOfTwo of internal/torrent/torrent.go. A
-- hash is its bytes, SHA-256 is a parameter, and `none` is the panic of an index out of range.
pub mod PowerOfTwo
pub mod Roots
use Prim.Native.Nat.{bit_and}
use weightless.Prelude.{
  ℕ, zero, suc, ◌+◌, ◌-◌, ◌*◌, ◌/◌, ◌%◌, ◌^◌, Bool, true, false, ◌&&◌, Option, none, some, List, [],
  ◌∷◌, ◌++◌, Bytes, ltb, leb, ◌==◌, if◌then◌else◌, length, take, get_elem?, replicate,
}

abbrev pub block_size : ℕ
block_size = 16384

unfoldable pub is_power_of_two : ℕ → Bool
is_power_of_two n = ltb 0 n && bit_and n (n - 1) == 0

-- for p < n { p <<= 1 }
pub double_until : ℕ → ℕ → ℕ → ℕ
double_until zero n p = p
double_until (suc fuel) n p = elim (ltb p n) [ true ↦ double_until fuel n (2 * p) | false ↦ p ]

-- Each round doubles, so n rounds reach n.
pub next_power_of_two : ℕ → ℕ
unfolding double_until
next_power_of_two n = if is_power_of_two n then n else double_until n n 1

-- bits.TrailingZeros of a uint, 64 for 0
pub trailing_zeros_up_to : ℕ → ℕ → ℕ
trailing_zeros_up_to zero n = 0
trailing_zeros_up_to (suc bits) n = elim (n % 2 == 0) [
  | true ↦ suc (trailing_zeros_up_to bits (n / 2))
  | false ↦ 0
]

abbrev pub trailing_zeros : ℕ → ℕ
trailing_zeros n = trailing_zeros_up_to 64 n

-- tree[level], cut to the number of pieces
abbrev pub cut_layer : ℕ → Option (List Bytes) → List Bytes
cut_layer num_pieces none = []
cut_layer num_pieces (some layer) = take num_pieces layer

pub extract_piece_layer : List (List Bytes) → ℕ → ℕ → List Bytes
unfolding trailing_zeros_up_to
extract_piece_layer tree piece_len num_pieces =
    cut_layer num_pieces (get_elem? tree (trailing_zeros (piece_len / block_size)))

abbrev pub on_top {ℓ} : {A : Type ℓ} → A → Option (List A) → Option (List A)
on_top a none = none
on_top a (some rest) = some (a ∷ rest)

module _ (sha256 : Bytes → Bytes) where
  -- One level up; an odd level reads past its end.
  pub pair_up : List Bytes → Option (List Bytes)
  pair_up [] = some []
  pair_up (a ∷ []) = none
  pair_up (a ∷ b ∷ level) = on_top (sha256 (a ++ b)) (pair_up level)

  -- The levels from `current` on.
  pub levels_from : ℕ → List Bytes → Option (List (List Bytes))
  unfolding pair_up
  levels_from zero current = none
  levels_from (suc fuel) current = elim (ltb 1 (length current)) [
    | true ↦ elim (pair_up current) [
      | none ↦ none
      | some next ↦ on_top current (levels_from fuel next)
    ]
    | false ↦ some (current ∷ [])
  ]

  abbrev pub zero_hash : Bytes
  zero_hash = sha256 (replicate 32 0)

  pub padded_leaves : List Bytes → List Bytes
  unfolding next_power_of_two
  padded_leaves leaves =
      leaves ++ replicate (next_power_of_two (length leaves) - length leaves) zero_hash

  pub build_merkle_tree : List Bytes → Option (List (List Bytes))
  unfolding levels_from padded_leaves
  build_merkle_tree [] = some ((zero_hash ∷ []) ∷ [])
  build_merkle_tree (leaf ∷ leaves) =
      let padded = padded_leaves (leaf ∷ leaves) in levels_from (length padded) padded
