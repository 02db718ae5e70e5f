-- ===== src/Torrent/Hashing/Tests.antt =====
-- Small contents, with the bytes as their own digests.
use weightless.Prelude.{◌≡◌, refl, List, [], ◌∷◌, Bytes, arith}
use weightless.Torrent.Hashing.{dir_pieces, feed, feed_reads, feed_files}
use weightless.Torrent.Hashing.Cuts.{cuts}
use weightless.Torrent.Hashing.Across.{digests, contents, dir_pieces-digests}

abbrev content : Bytes
content = 5 ∷ 6 ∷ 7 ∷ []

-- Two files, the first in two reads; the second piece spans both.
abbrev reads : List (List Bytes)
reads = ((1 ∷ []) ∷ (2 ∷ 3 ∷ []) ∷ []) ∷ ((4 ∷ 5 ∷ []) ∷ []) ∷ []

spanned : dir_pieces (λ s. 0 ∷ s) 2 reads ≡ 0 ∷ 1 ∷ 2 ∷ 0 ∷ 3 ∷ 4 ∷ 0 ∷ 5 ∷ []
unfolding dir_pieces feed feed_reads feed_files
spanned = refl

dir_pieces-digests_example :
    dir_pieces (λ s. 0 ∷ s) 2 reads ≡ digests (λ s. 0 ∷ s) (cuts 2 [] (contents (λ s. 0 ∷ s) reads))
dir_pieces-digests_example = dir_pieces-digests (λ s. 0 ∷ s) 2 reads (omega arith)
