-- ===== src/Torrent/Parse/Tests.antt =====
-- An info dictionary with two listed files.
use weightless.Prelude.{ℕ, ◌≡◌, ◌↔◌, refl, none, some, [], ◌∷◌, Bytes, codes, All, replicate, arith}
use weightless.Prelude.Path.{is_abs, volume_name, clean, clean_parts, join_path}
use weightless.Prelude.Split.{split}
use weightless.Torrent.Parse.{
  Value, integer, text, list, dict, nil, cons, Fields, end, field, TorrentMeta, parsed, failed,
  bad_path, safe_join, walk_entries, walk_node, walk_file_tree, parse_info_map,
}
use weightless.Torrent.Parse.Paths.{IsJoined, safe_join_iff}
use weightless.Torrent.Parse.Layout.{IsSafeFile, parse_info_map-IsSafeFile}
use weightless.Torrent.Parse.Counts.{IsCut, parse_info_map-IsCut}

abbrev hashes : Bytes
hashes = replicate 40 7

abbrev listed : ℕ → Bytes → Value
listed n s = dict (
    field (codes "length") (integer n)
      (field (codes "path") (list (cons (text (codes "d")) (cons (text s) nil))) end))

abbrev info : Fields
info =
    field (codes "files") (list (cons (listed 10 (codes "x")) (cons (listed 15 (codes "y")) nil))) (
      field (codes "name") (text (codes "n"))
        (field (codes "piece length") (integer 16) (field (codes "pieces") (text hashes) end)))

abbrev info_meta : TorrentMeta
info_meta = record {
  name = codes "n";
  piece_length = 16;
  piece_count = 2;
  total_size = 25;
  files =
      record { path = codes "d/x"; length = 10 } ∷ record { path = codes "d/y"; length = 15 } ∷ [];
  pieces = some hashes;
}

info_parsed : parse_info_map info ≡ parsed info_meta
unfolding parse_info_map safe_join join_path is_abs volume_name clean clean_parts split
info_parsed = refl

-- The parent directory is refused.
escaping :
    parse_info_map (
      field
        (codes "files")
        (list (cons (listed 10 (codes "..")) nil))
        (field (codes "piece length") (integer 16) end))
    ≡ failed bad_path
unfolding parse_info_map safe_join join_path is_abs volume_name clean clean_parts split
escaping = refl

-- A file tree with a directory
treed :
    parse_info_map (
      field
        (codes "file tree")
        (dict (
          field
            (codes "d")
            (dict (
              field
                (codes "x")
                (dict (field [] (dict (field (codes "length") (integer 3) end)) end))
                end))
            end))
        (field (codes "piece length") (integer 16) end))
    ≡ parsed (record {
      name = [];
      piece_length = 16;
      piece_count = 1;
      total_size = 3;
      files = record { path = codes "d/x"; length = 3 } ∷ [];
      pieces = none;
    })
unfolding parse_info_map walk_file_tree walk_entries walk_node safe_join join_path is_abs
    volume_name clean clean_parts split
treed = refl

-- A listed file without a path
pathless :
    parse_info_map (
      field
        (codes "files")
        (list (cons (dict (field (codes "length") (integer 3) end)) nil))
        (field (codes "piece length") (integer 16) end))
    ≡ parsed (record {
      name = [];
      piece_length = 16;
      piece_count = 1;
      total_size = 3;
      files = record { path = []; length = 3 } ∷ [];
      pieces = none;
    })
unfolding parse_info_map safe_join join_path
pathless = refl

safe_join_iff_example :
    (safe_join (codes "d" ∷ codes "x" ∷ []) ≡ some (codes "d/x"))
    ↔ IsJoined (codes "d" ∷ codes "x" ∷ []) (codes "d/x")
safe_join_iff_example = safe_join_iff (codes "d" ∷ codes "x" ∷ []) (codes "d/x")

parse_info_map-IsSafeFile_example : All IsSafeFile info_meta.files
parse_info_map-IsSafeFile_example = parse_info_map-IsSafeFile info info_meta info_parsed

parse_info_map-IsCut_example : IsCut info_meta hashes
parse_info_map-IsCut_example =
    parse_info_map-IsCut info info_meta hashes info_parsed refl refl (omega arith)
