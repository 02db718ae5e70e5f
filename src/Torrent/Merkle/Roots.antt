-- ===== src/Torrent/Merkle/Roots.antt =====
-- The levels of the tree against Merkle roots by recursion on the height.
use weightless.Prelude.{
  ℕ, zero, suc, ◌+◌, ◌-◌, ◌*◌, ◌/◌, ◌≤◌, ◌<◌, ◌≡◌, refl, sym, ap, ◌∙◌, true, Option, some, List, [],
  ◌∷◌, ◌++◌, Bytes, ltb, length, length-append, length-replicate, take, drop, drop-drop, get_elem?,
  replicate, arith,
}
use weightless.Prelude.Powers.{exp2, lt-zero-exp2, lt-exp2}
use weightless.Torrent.Merkle.{
  pair_up, levels_from, padded_leaves, build_merkle_tree, zero_hash, block_size,
  extract_piece_layer, next_power_of_two,
}
use weightless.Torrent.Merkle.PowerOfTwo.{next_power_of_two-exp2, trailing_zeros_up_to-exp2}

abbrev pub first : List Bytes → Bytes
first [] = []
first (h ∷ hs) = h

module _ (sha256 : Bytes → Bytes) where
  -- The root over the first 2 ^ height leaves: the hash of the roots of the two halves.
  abbrev pub merkle_root : ℕ → List Bytes → Bytes
  merkle_root zero leaves = first leaves
  merkle_root (suc height) leaves =
      sha256 (merkle_root height leaves ++ merkle_root height (drop (exp2 height) leaves))

  -- The roots over n groups of 2 ^ height leaves each
  abbrev pub roots : ℕ → ℕ → List Bytes → List Bytes
  roots zero height leaves = []
  roots (suc n) height leaves =
      merkle_root height leaves ∷ roots n height (drop (exp2 height) leaves)

  -- All the levels from one of 2 ^ m roots up
  abbrev pub levels : ℕ → ℕ → List Bytes → List (List Bytes)
  levels zero height leaves = roots 1 height leaves ∷ []
  levels (suc m) height leaves = roots (exp2 (suc m)) height leaves ∷ levels m (suc height) leaves

  pair_up-roots :
      (n c height : ℕ) (leaves : List Bytes)
      → c ≡ 2 * n
      → pair_up sha256 (roots c height leaves) ≡ some (roots n (suc height) leaves)
  unfolding pair_up
  pair_up-roots zero zero height leaves e = refl
  pair_up-roots zero (suc c) height leaves e = absurd (omega (arith, e))
  pair_up-roots (suc n) zero height leaves e = absurd (omega (arith, e))
  pair_up-roots (suc n) (suc zero) height leaves e = absurd (omega (arith, e))
  pair_up-roots (suc n) (suc (suc c)) height leaves e =
      let behind : drop (exp2 height) (drop (exp2 height) leaves)
          ≡ drop (exp2 (suc height)) leaves =
        drop-drop (exp2 height) (exp2 height) leaves ∙ ap (λ k. drop k leaves) (omega arith) in
      rw (behind, pair_up-roots n c height (drop (exp2 (suc height)) leaves) (omega (arith, e)))
        refl

  length-roots : (n height : ℕ) (leaves : List Bytes) → length (roots n height leaves) ≡ n
  length-roots zero height leaves = refl
  length-roots (suc n) height leaves = ap suc (length-roots n height (drop (exp2 height) leaves))

  levels_from-roots :
      (fuel m height : ℕ) (leaves : List Bytes)
      → m < fuel
      → levels_from sha256 fuel (roots (exp2 m) height leaves) ≡ some (levels m height leaves)
  unfolding levels_from
  levels_from-roots zero m height leaves h = absurd (omega (arith, h))
  levels_from-roots (suc fuel) zero height leaves h = refl
  levels_from-roots (suc fuel) (suc m) height leaves h =
      let more : ltb 1 (length (roots (exp2 (suc m)) height leaves)) ≡ true =
        ground (arith, length-roots (exp2 (suc m)) height leaves, lt-zero-exp2 m) in
      rw
        (
          more,
          levels_from,
          pair_up-roots (exp2 m) (exp2 (suc m)) height leaves refl,
          levels_from-roots fuel m (suc height) leaves (omega (arith, h)),
        )
        refl

  -- Single leaves are their own roots.
  roots_zero : (leaves : List Bytes) (n : ℕ) → n ≡ length leaves → roots n 0 leaves ≡ leaves
  roots_zero [] zero e = refl
  roots_zero [] (suc n) e = absurd (omega (arith, e))
  roots_zero (h ∷ leaves) zero e = absurd (omega (arith, e))
  roots_zero (h ∷ leaves) (suc n) e = ap (◌∷◌ h) (roots_zero leaves n (omega (arith, e)))

  same_roots :
      (leaves : List Bytes) {m n h g : ℕ}
      → m ≡ n
      → h ≡ g
      → ◌≡◌ {A = Option (List Bytes)}
          (some (roots (exp2 m) h leaves))
          (some (roots (exp2 n) g leaves))
  same_roots leaves e f = cc

  pub get_elem?-levels :
      (m j height : ℕ) (leaves : List Bytes)
      → j ≤ m
      → get_elem? (levels m height leaves) j ≡ some (roots (exp2 (m - j)) (height + j) leaves)
  get_elem?-levels zero zero height leaves h = ap (λ k. some (roots 1 k leaves)) (omega arith)
  get_elem?-levels zero (suc j) height leaves h = absurd (omega (arith, h))
  get_elem?-levels (suc m) zero height leaves h =
      same_roots leaves {m = suc m} {n = suc m - 0} {h = height} {g = height + 0} (omega arith)
        (omega arith)
  get_elem?-levels (suc m) (suc j) height leaves h =
      get_elem?-levels m j (suc height) leaves (omega (arith, h))
      ∙ same_roots leaves {m = m - j} {n = suc m - suc j} {h = suc height + j} {g = height + suc j}
          (omega arith) (omega arith)

  length-levels : (m height : ℕ) (leaves : List Bytes) → length (levels m height leaves) ≡ suc m
  length-levels zero height leaves = refl
  length-levels (suc m) height leaves = ap suc (length-levels m (suc height) leaves)

  length-padded_leaves :
      (leaves : List Bytes) (k : ℕ)
      → next_power_of_two (length leaves) ≡ exp2 k
      → length leaves ≤ exp2 k
      → length (padded_leaves sha256 leaves) ≡ exp2 k
  unfolding padded_leaves
  length-padded_leaves leaves k power enough =
      let n = next_power_of_two (length leaves) - length leaves in
      omega (
        arith,
        length-append leaves (replicate n (zero_hash sha256)),
        length-replicate n (zero_hash sha256),
        power,
        enough,
      )

  -- For one leaf or more the tree is complete, over the least power of two of leaves that holds them.
  pub build_merkle_tree-levels :
      (leaf : Bytes) (leaves : List Bytes)
      → (k : ℕ) × (build_merkle_tree sha256 (leaf ∷ leaves)
          ≡ some (levels k 0 (padded_leaves sha256 (leaf ∷ leaves))))
        × (length (leaf ∷ leaves) ≤ exp2 k)
        × (exp2 k < 2 * length (leaf ∷ leaves))
  unfolding build_merkle_tree
  build_merkle_tree-levels leaf leaves =
      let n = length (leaf ∷ leaves) in
      let (k, power, enough, least) = next_power_of_two-exp2 n (omega arith) in
      let padded = padded_leaves sha256 (leaf ∷ leaves) in
      let size : length padded ≡ exp2 k = length-padded_leaves (leaf ∷ leaves) k power enough in
      let whole : padded ≡ roots (exp2 k) 0 padded = sym (roots_zero padded (exp2 k) (sym size)) in
      let built : levels_from sha256 (length padded) padded ≡ some (levels k 0 padded) =
        ap (levels_from sha256 (length padded)) whole
        ∙ levels_from-roots (length padded) k 0 padded (omega (arith, size, lt-exp2 k)) in
      (k, built, enough, least)

  pub extract_piece_layer-levels :
      (k j piece_len num_pieces : ℕ) (leaves : List Bytes)
      → j ≤ k
      → j ≤ 64
      → piece_len ≡ block_size * exp2 j
      → extract_piece_layer (levels k 0 leaves) piece_len num_pieces
        ≡ take num_pieces (roots (exp2 (k - j)) j leaves)
  unfolding extract_piece_layer
  extract_piece_layer-levels k j piece_len num_pieces leaves h small e =
      let blocks : piece_len / block_size ≡ exp2 j = omega (arith, e) in
      rw (blocks, trailing_zeros_up_to-exp2 64 j small, get_elem?-levels k j 0 leaves h)
        (ap (λ h. take num_pieces (roots (exp2 (k - j)) h leaves)) (omega arith))
