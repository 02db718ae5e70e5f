-- ===== src/Torrent/Hashing/Reader.antt =====
-- The loop of hashReaderHybrid: the digests of the blocks and of the pieces of its stream.
use weightless.Prelude.{
  ℕ, zero, suc, ◌+◌, ◌*◌, ◌≤◌, ◌<◌, ◌≡◌, refl, sym, ap, subst, ◌∙◌, [], ◌∷◌, ◌++◌, Bytes, ltb,
  not-ltb→le, leb, length, length-append, length-take, length-drop, take-append-drop, take,
  take_all, drop, append_assoc, append-nil, map, arith, Bool-cases, inl, inr,
}
use weightless.Torrent.Hashing.{Hashing, hash_block, read_loop, flushed, nothing_hashed}
use weightless.Torrent.Hashing.Cuts.{cuts, cuts_short, cuts_full}
use weightless.Torrent.Hashing.Across.{digests, flush_piece}
use weightless.Torrent.Merkle.{block_size}

module _ (sha1 sha256 : Bytes → Bytes) where
  -- The hashes once the stream goes on with `rest` and then ends.
  record IsHashed (n : ℕ) (s t : Hashing) (rest : Bytes) : Type 0 where
    blocks : t.block_hashes ≡ s.block_hashes ++ map sha256 (cuts block_size [] rest)
    pieces : flushed sha1 sha256 t ≡ s.v1_pieces ++ digests sha1 (cuts n s.in_piece rest)

  -- A stream that ends
  stream_ends : (n : ℕ) (s : Hashing) → IsHashed n s s []
  unfolding cuts
  stream_ends n s = record {
    blocks = sym (append-nil s.block_hashes);
    pieces = flush_piece sha1 s.v1_pieces s.in_piece;
  }

  -- A round over a block that fills the piece, or leaves room
  hash_block-IsHashed :
      (n : ℕ) (x rest : Bytes) (s t : Hashing)
      → 0 < length x
      → length s.in_piece + length x ≤ n
      → cuts block_size [] (x ++ rest) ≡ x ∷ cuts block_size [] rest
      → IsHashed n (hash_block sha1 sha256 n x s) t rest
      → IsHashed n s t (x ++ rest)
  unfolding hash_block
  hash_block-IsHashed n x rest s t pos room own =
      let fed_size = length-append s.in_piece x in
      let more : s.block_hashes ++ map sha256 (cuts block_size [] (x ++ rest))
          ≡ (s.block_hashes ++ sha256 x ∷ []) ++ map sha256 (cuts block_size [] rest) =
        ap (λ b. s.block_hashes ++ map sha256 b) own
        ∙ sym (append_assoc s.block_hashes (sha256 x ∷ []) _) in
      elim (Bool-cases (leb n (length (s.in_piece ++ x)))) [
        | inl full ↦ rw full (λ h. record {
          blocks = h.blocks ∙ sym more;
          pieces =
              h.pieces
              ∙ append_assoc s.v1_pieces (sha1 (s.in_piece ++ x)) _
              ∙ ap (λ b. s.v1_pieces ++ digests sha1 b)
                  (sym (cuts_full n s.in_piece x rest pos (ground (arith, fed_size))));
        })
        | inr short ↦ rw short (λ h. record {
          blocks = h.blocks ∙ sym more;
          pieces =
              h.pieces
              ∙ ap (λ b. s.v1_pieces ++ digests sha1 b)
                  (sym (cuts_short n s.in_piece x rest (ground (arith, fed_size))));
        })
      ]

  -- Between the rounds whole blocks stand in the piece, and there is room for another.
  record IsAligned (m : ℕ) (s : Hashing) : Type 0 where
    count : ℕ
    fills : length s.in_piece ≡ block_size * count
    below : count < m

  hash_block-IsAligned :
      (m : ℕ) (x : Bytes) (s : Hashing)
      → length x ≡ block_size
      → IsAligned m s
      → IsAligned m (hash_block sha1 sha256 (block_size * m) x s)
  unfolding hash_block
  hash_block-IsAligned m x s h k =
      let fed_size = length-append s.in_piece x in
      elim (Bool-cases (leb (block_size * m) (length (s.in_piece ++ x)))) [
        | inl full ↦ rw full (record { count = 0; fills = refl; below = omega (arith, k.below) })
        | inr short ↦ rw short (record {
          count = suc k.count;
          fills = omega (arith, fed_size, h, k.fills);
          below = ground (arith, fed_size, h, k.fills);
        })
      ]

  last_block :
      (m c : ℕ) (r : Bytes) (s : Hashing)
      → length (c ∷ r) < block_size
      → IsAligned m s
      → IsHashed (block_size * m) s (hash_block sha1 sha256 (block_size * m) (c ∷ r) s) (c ∷ r)
  unfolding cuts
  last_block m c r s h k =
      let next = hash_block sha1 sha256 (block_size * m) (c ∷ r) s in
      let own = cuts_short block_size [] (c ∷ r) [] (omega (arith, h)) in
      let whole =
        hash_block-IsHashed (block_size * m) (c ∷ r) [] s next (omega arith)
          (omega (arith, h, k.fills, k.below)) own (stream_ends (block_size * m) next) in
      subst (λ t. IsHashed (block_size * m) s next t) (append-nil (c ∷ r)) whole

  whole_block :
      (m : ℕ) (x rest : Bytes) (s t : Hashing)
      → length x ≡ block_size
      → IsAligned m s
      → IsHashed (block_size * m) (hash_block sha1 sha256 (block_size * m) x s) t rest
      → IsHashed (block_size * m) s t (x ++ rest)
  whole_block m x rest s t h k =
      hash_block-IsHashed (block_size * m) x rest s t (omega (arith, h))
        (omega (arith, h, k.fills, k.below))
        (cuts_full block_size [] x rest (omega (arith, h)) (omega (arith, h)))

  read_loop-IsHashed :
      (fuel m : ℕ) (rest : Bytes) (s : Hashing)
      → length rest < fuel
      → IsAligned m s
      → IsHashed (block_size * m) s (read_loop sha1 sha256 fuel (block_size * m) rest s) rest
  unfolding read_loop
  read_loop-IsHashed zero m rest s h k = absurd (omega (arith, h))
  read_loop-IsHashed (suc fuel) m [] s h k = stream_ends (block_size * m) s
  read_loop-IsHashed (suc fuel) m (c ∷ r) s h k =
      elim (Bool-cases (ltb (length (c ∷ r)) block_size)) [
        | inl short ↦
            rw (short, read_loop, take_all block_size (c ∷ r) (ground arith))
              (last_block m c r s (ground arith) k)
        | inr enough ↦
            let x = take block_size (c ∷ r) in
            let y = drop block_size (c ∷ r) in
            let size : length x ≡ block_size = omega (
              arith,
              length-take block_size (c ∷ r),
              not-ltb→le (length (c ∷ r)) block_size enough,
            ) in
            let next = hash_block sha1 sha256 (block_size * m) x s in
            let ih =
              read_loop-IsHashed fuel m y next (omega (arith, length-drop block_size (c ∷ r), h))
                (hash_block-IsAligned m x s size k) in
            let whole =
              whole_block m x y s (read_loop sha1 sha256 fuel (block_size * m) y next) size k ih in
            rw (enough, read_loop)
              (subst
                (λ t.
                  IsHashed (block_size * m) s (read_loop sha1 sha256 fuel (block_size * m) y next)
                    t)
                (take-append-drop block_size (c ∷ r)) whole)
      ]

  -- All the stream, from the start.
  pub read_loop-digests :
      (m : ℕ) (content : Bytes)
      → 0 < m
      → let end =
          read_loop sha1 sha256 (suc (length content)) (block_size * m) content nothing_hashed in
        (end.block_hashes ≡ map sha256 (cuts block_size [] content))
        × (flushed sha1 sha256 end ≡ digests sha1 (cuts (block_size * m) [] content))
  read_loop-digests m content h =
      let done =
        read_loop-IsHashed (suc (length content)) m content nothing_hashed (omega arith)
          (record { count = 0; fills = refl; below = h }) in
      (done.blocks, done.pieces)
