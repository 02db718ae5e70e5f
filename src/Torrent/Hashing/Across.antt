-- ===== src/Torrent/Hashing/Across.antt =====
-- The v1 pieces of a directory do not depend on the reads: they are those of the files put together.
use weightless.Prelude.{
  ℕ, zero, suc, ◌-◌, ◌<◌, ◌≡◌, refl, sym, ap, ◌∙◌, true, List, [], ◌∷◌, ◌++◌, Bytes, ltb, ◌==◌,
  if◌then◌else◌, length, length-append, length-take, length-drop, take-append-drop, take, drop, min,
  append_assoc, append-nil, arith, Bool-cases, inl, inr,
}
use weightless.Torrent.Hashing.{feed, feed_reads, feed_files, flush_last, dir_pieces}
use weightless.Torrent.Hashing.Cuts.{cuts, cuts_short, cuts_full, rest_of, joined}

module _ (sha1 : Bytes → Bytes) where
  abbrev pub digests : List Bytes → Bytes
  digests [] = []
  digests (x ∷ xs) = sha1 x ++ digests xs

  -- What is hashed once the stream goes on with `rest` and then ends.
  abbrev pub finished : ℕ → Bytes × Bytes → Bytes → Bytes
  finished n (pieces, in_piece) rest = pieces ++ digests (cuts n in_piece rest)

  -- Bytes remain to be taken, and the piece has room.
  abbrev HasRoom : ℕ → Bytes × Bytes → Type 0
  HasRoom n s = length s.1 < n

  feed-finished :
      (fuel n : ℕ) (buf pieces in_piece : Bytes) (rest : Bytes)
      → length buf < fuel
      → length in_piece < n
      → HasRoom n (feed sha1 fuel n buf (pieces, in_piece))
        × (finished n (feed sha1 fuel n buf (pieces, in_piece)) rest
            ≡ finished n (pieces, in_piece) (buf ++ rest))
  unfolding feed
  feed-finished zero n buf pieces in_piece rest h room = absurd (omega (arith, h))
  feed-finished (suc fuel) n [] pieces in_piece rest h room = (room, refl)
  feed-finished (suc fuel) n (c ∷ s) pieces in_piece rest h room =
      let buf = c ∷ s in
      let w = min (length buf) (n - length in_piece) in
      let x = take w buf in
      let y = drop w buf in
      let x_size : length x ≡ w = omega (arith, length-take w buf) in
      let y_size : length y < fuel = omega (arith, length-drop w buf, h, room) in
      let split : buf ++ rest ≡ x ++ (y ++ rest) =
        ap (λ b. b ++ rest) (sym (take-append-drop w buf)) ∙ append_assoc x y rest in
      let fed_size = length-append in_piece x in
      elim (Bool-cases (length (in_piece ++ x) == n)) [
        | inl full ↦
            let (ok, ih) =
              feed-finished fuel n y (pieces ++ sha1 (in_piece ++ x)) [] rest y_size
                (omega (arith, room)) in
            let cut =
              cuts_full n in_piece x (y ++ rest) (omega (arith, x_size, room))
                (ground (arith, fed_size)) in
            rw (full, feed)
              (
                ok,
                ih
                    ∙ append_assoc pieces (sha1 (in_piece ++ x)) _
                    ∙ ap (λ t. pieces ++ digests t) (sym cut ∙ ap (cuts n in_piece) (sym split)),
              )
        | inr short ↦
            let room' : length (in_piece ++ x) < n = ground (arith, fed_size, x_size) in
            let (ok, ih) = feed-finished fuel n y pieces (in_piece ++ x) rest y_size room' in
            let cut = cuts_short n in_piece x (y ++ rest) (omega (arith, fed_size, room')) in
            rw (short, feed)
              (ok, ih ∙ ap (λ t. pieces ++ digests t) (sym cut ∙ ap (cuts n in_piece) (sym split)))
      ]

  pub flush_piece :
      (pieces in_piece : Bytes)
      → (if ltb 0 (length in_piece) then pieces ++ sha1 in_piece else pieces)
        ≡ pieces ++ digests (rest_of in_piece)
  flush_piece pieces [] = sym (append-nil pieces)
  flush_piece pieces (c ∷ in_piece) =
      let some_bytes : ltb 0 (length (c ∷ in_piece)) ≡ true = ground arith in
      rw some_bytes (ap (λ t. pieces ++ t) (sym (append-nil (sha1 (c ∷ in_piece)))))

  feed_reads-finished :
      (n : ℕ) (reads : List Bytes) (s : Bytes × Bytes) (rest : Bytes)
      → HasRoom n s
      → HasRoom n (feed_reads sha1 n reads s)
        × (finished n (feed_reads sha1 n reads s) rest ≡ finished n s (joined reads ++ rest))
  unfolding feed_reads
  feed_reads-finished n [] s rest room = (room, refl)
  feed_reads-finished n (buf ∷ reads) (pieces, in_piece) rest room =
      let next = feed sha1 (suc (length buf)) n buf (pieces, in_piece) in
      let (room', fed) =
        feed-finished (suc (length buf)) n buf pieces in_piece (joined reads ++ rest) (omega arith)
          room in
      let (ok, ih) = feed_reads-finished n reads next rest room' in
      (
        ok,
        ih ∙ fed ∙ ap (finished n (pieces, in_piece)) (sym (append_assoc buf (joined reads) rest)),
      )

  -- The contents of the files, put together
  abbrev pub contents : List (List Bytes) → Bytes
  contents [] = []
  contents (reads ∷ files) = joined reads ++ contents files

  feed_files-finished :
      (n : ℕ) (files : List (List Bytes)) (s : Bytes × Bytes) (rest : Bytes)
      → HasRoom n s
      → HasRoom n (feed_files sha1 n files s)
        × (finished n (feed_files sha1 n files s) rest ≡ finished n s (contents files ++ rest))
  unfolding feed_files
  feed_files-finished n [] s rest room = (room, refl)
  feed_files-finished n (reads ∷ files) s rest room =
      let (room', fed) = feed_reads-finished n reads s (contents files ++ rest) room in
      let (ok, ih) = feed_files-finished n files (feed_reads sha1 n reads s) rest room' in
      (ok, ih ∙ fed ∙ ap (finished n s) (sym (append_assoc (joined reads) (contents files) rest)))

  flush_last-finished : (n : ℕ) (s : Bytes × Bytes) → flush_last sha1 s ≡ finished n s []
  unfolding cuts
  flush_last-finished n (pieces, in_piece) = flush_piece pieces in_piece

  -- However the files of a directory come in reads, and wherever a piece spans files, `pieces` holds
  -- the digests of the successive pieces of the files' contents put together.
  pub dir_pieces-digests :
      (piece_len : ℕ) (files : List (List Bytes))
      → 0 < piece_len
      → dir_pieces sha1 piece_len files ≡ digests (cuts piece_len [] (contents files))
  unfolding dir_pieces
  dir_pieces-digests piece_len files h =
      let fed = (feed_files-finished piece_len files ([], []) [] h).1 in
      flush_last-finished piece_len (feed_files sha1 piece_len files ([], []))
      ∙ fed
      ∙ ap (λ b. digests (cuts piece_len [] b)) (append-nil (contents files))
