-- ===== src/Torrent/Hashing/Files.antt =====
-- What hashReaderHybrid returns for a file: the v1 digests of its pieces, and of the Merkle tree over
-- its blocks the root and the roots of the pieces.
use weightless.Prelude.{ℕ, ◌+◌, ◌-◌, ◌*◌, ◌/◌, some, List, [], Bytes, ltb, if◌then◌else◌, take, map}
use weightless.Prelude.Powers.{exp2}
use weightless.Torrent.Hashing.{FileResult}
use weightless.Torrent.Hashing.Across.{digests}
use weightless.Torrent.Hashing.Cuts.{cuts}
use weightless.Torrent.Merkle.{block_size}
use weightless.Torrent.Merkle.Roots.{merkle_root, roots}

module _ (sha1 sha256 : Bytes → Bytes) where
  abbrev pub pieces_of : ℕ → ℕ → ℕ
  pieces_of size piece_len = (size + piece_len - 1) / piece_len

  -- The description of a file: its size, the height of its tree, its padded leaves
  abbrev pub described : ℕ → ℕ → ℕ → List Bytes → Bytes → FileResult
  described size j k leaves content = record {
    size = size;
    pieces_root = some (merkle_root sha256 k leaves);
    piece_layer =
        if ltb 1 (pieces_of size (block_size * exp2 j))
        then take (pieces_of size (block_size * exp2 j)) (roots sha256 (exp2 (k - j)) j leaves)
        else [];
    v1_pieces = digests sha1 (cuts (block_size * exp2 j) [] content);
  }

  abbrev pub block_digests : Bytes → List Bytes
  block_digests content = map sha256 (cuts block_size [] content)
