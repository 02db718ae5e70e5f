-- ===== src/Torrent/Hashing.antt =====
-- hashReaderHybrid and the hashing of pieces across files in buildDirHybrid of
-- internal/torrent/torrent.go. SHA-1 and SHA-256 are parameters; a hasher is the bytes that were
-- written to it since it was reset.
pub mod Cuts
pub mod Reader
pub mod Across
pub mod Files
mod Tests
use weightless.Prelude.{
  ℕ, zero, suc, ◌+◌, ◌-◌, ◌/◌, Bool, true, false, Option, none, some, List, [], ◌∷◌, ◌++◌, Bytes,
  ltb, leb, ◌==◌, if◌then◌else◌, length, take, drop, min,
}
use weightless.Torrent.Merkle.{block_size, build_merkle_tree, extract_piece_layer}

pub record Hashing : Type 0 where
  pub block_hashes : List Bytes
  pub v1_pieces : Bytes
  pub in_piece : Bytes

abbrev pub nothing_hashed : Hashing
nothing_hashed = record { block_hashes = []; v1_pieces = []; in_piece = [] }

-- The entry of a file; an empty file has no root.
pub record FileResult : Type 0 where
  pub size : ℕ
  pub pieces_root : Option Bytes
  pub piece_layer : List Bytes
  pub v1_pieces : Bytes

-- `panicked` is an index out of range.
pub data HashOutcome : Type 0 where
  hashed : FileResult → HashOutcome
  read_error panicked : HashOutcome

abbrev pub is_nil : Bytes → Bool
is_nil [] = true
is_nil (c ∷ s) = false

-- root := tree[len(tree)-1][0]
abbrev pub head_of : List Bytes → Option Bytes
head_of [] = none
head_of (h ∷ hs) = some h

abbrev pub top_of : List (List Bytes) → Option Bytes
top_of [] = none
top_of (level ∷ []) = head_of level
top_of (level ∷ next ∷ tree) = top_of (next ∷ tree)

module _ (sha1 sha256 : Bytes → Bytes) where
  -- One round of the loop, behind the read of a block.
  pub hash_block : ℕ → Bytes → Hashing → Hashing
  hash_block piece_len block s =
      let fed = s.in_piece ++ block in
      let hashes = s.block_hashes ++ sha256 block ∷ [] in
      if leb piece_len (length fed)
      then record { block_hashes = hashes; v1_pieces = s.v1_pieces ++ sha1 fed; in_piece = [] }
      else record { block_hashes = hashes; v1_pieces = s.v1_pieces; in_piece = fed }

  -- io.ReadFull: a block, or what is left, which ends the loop.
  pub read_loop : ℕ → ℕ → Bytes → Hashing → Hashing
  unfolding hash_block
  read_loop zero piece_len rest s = s
  read_loop (suc fuel) piece_len rest s = elim (is_nil rest) [
    | true ↦ s
    | false ↦
        let next = hash_block piece_len (take block_size rest) s in
        elim (ltb (length rest) block_size) [
          | true ↦ next
          | false ↦ read_loop fuel piece_len (drop block_size rest) next
        ]
  ]

  -- The last piece, if there is one.
  abbrev pub flushed : Hashing → Bytes
  flushed s = if ltb 0 (length s.in_piece) then s.v1_pieces ++ sha1 s.in_piece else s.v1_pieces

  abbrev pub with_root : ℕ → ℕ → Bytes → List (List Bytes) → Option Bytes → HashOutcome
  with_root size piece_len pieces tree none = panicked
  with_root size piece_len pieces tree (some root) =
      let num_pieces = (size + piece_len - 1) / piece_len in
      hashed (record {
        size = size;
        pieces_root = some root;
        piece_layer =
            if ltb 1 num_pieces then extract_piece_layer tree piece_len num_pieces else [];
        v1_pieces = pieces;
      })

  abbrev pub with_tree : ℕ → ℕ → Bytes → Option (List (List Bytes)) → HashOutcome
  with_tree size piece_len pieces none = panicked
  with_tree size piece_len pieces (some tree) = with_root size piece_len pieces tree (top_of tree)

  -- The reader delivers `content` and then ends, or fails if it is broken.
  pub hash_reader_hybrid : Bytes → Bool → ℕ → ℕ → HashOutcome
  unfolding read_loop
  hash_reader_hybrid content broken size piece_len =
      let s = read_loop (suc (length content)) piece_len content nothing_hashed in
      if size == 0
      then hashed (record { size = 0; pieces_root = none; piece_layer = []; v1_pieces = [] })
      else if broken
      then read_error
      else with_tree size piece_len (flushed s) (build_merkle_tree sha256 s.block_hashes)

module _ (sha1 : Bytes → Bytes) where
  -- The inner loop of buildDirHybrid over the bytes of one read, with the pieces that are done and
  -- the bytes of the one that is not.
  pub feed : ℕ → ℕ → Bytes → Bytes × Bytes → Bytes × Bytes
  feed zero piece_len buf (pieces, in_piece) = (pieces, in_piece)
  feed (suc fuel) piece_len buf (pieces, in_piece) =
      let to_write = min (length buf) (piece_len - length in_piece) in
      let fed = in_piece ++ take to_write buf in
      elim (is_nil buf) [
        | true ↦ (pieces, in_piece)
        | false ↦ elim (length fed == piece_len) [
          | true ↦ feed fuel piece_len (drop to_write buf) (pieces ++ sha1 fed, [])
          | false ↦ feed fuel piece_len (drop to_write buf) (pieces, fed)
        ]
      ]

  -- The reads of one file, and those of all files, in order. A read of no bytes feeds nothing.
  pub feed_reads : ℕ → List Bytes → Bytes × Bytes → Bytes × Bytes
  unfolding feed
  feed_reads piece_len [] s = s
  feed_reads piece_len (buf ∷ reads) s =
      feed_reads piece_len reads (feed (suc (length buf)) piece_len buf s)

  pub feed_files : ℕ → List (List Bytes) → Bytes × Bytes → Bytes × Bytes
  unfolding feed_reads
  feed_files piece_len [] s = s
  feed_files piece_len (reads ∷ files) s = feed_files piece_len files (feed_reads piece_len reads s)

  abbrev pub flush_last : Bytes × Bytes → Bytes
  flush_last (pieces, in_piece) =
      if ltb 0 (length in_piece) then pieces ++ sha1 in_piece else pieces

  -- The `pieces` of a directory.
  pub dir_pieces : ℕ → List (List Bytes) → Bytes
  unfolding feed_files
  dir_pieces piece_len files = flush_last (feed_files piece_len files ([], []))
