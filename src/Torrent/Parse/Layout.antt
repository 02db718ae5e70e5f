-- ===== src/Torrent/Parse/Layout.antt =====
-- What parseInfoMap promises of the torrents that it accepts.
use weightless.Prelude.{
  ℕ, ◌+◌, ◌≡◌, ◌⊎◌, refl, ap, Bool, true, false, not, Option, none, some, List, [], ◌∷◌, ◌++◌,
  Bytes, codes, ltb, if◌then◌else◌, All, arith, inl, inr, subst,
}
use weightless.Client.Storage.{resolve}
use weightless.Torrent.Parse.{
  Value, Items, nil, cons, Fields, end, field, integer, text, list, dict, other, FileEntry,
  TorrentMeta, Parsed, parsed, failed, lookup, as_int64, as_string, as_list, as_map, is_positive,
  safe_join, or_zero, or_empty, one_file, both, below, node_files, walk_entries, walk_node,
  walk_file_tree, strings, listed_path, listed_file, listed_files, sum_lengths, pieces_checked,
  counted, single_files, all_listed, tree_files, with_files, with_listed, with_single, laid_out,
  sized, parse_info_map, is_mismatch, filled, Failure, bad_piece_length, bad_pieces,
  bad_piece_count,
}
use weightless.Torrent.Parse.Paths.{IsJoined, safe_join_iff, resolve-safe_join}

-- A path put together from safe components, which the storage takes as it is.
pub record IsPlaced (path : Bytes) : Type 0 where
  pub parts : List Bytes
  pub joined : IsJoined parts path
  pub resolved : resolve path ≡ some path

-- A listed file without a path has the empty one, which the storage refuses.
abbrev pub IsSafeFile : FileEntry → Type 0
IsSafeFile f = (f.path ≡ []) ⊎ IsPlaced f.path

AllSafe : Option (List FileEntry) → Type 0
AllSafe none = Unit
AllSafe (some files) = All IsSafeFile files

safe_join-IsPlaced :
    (parts : List Bytes) (path : Bytes) → safe_join parts ≡ some path → IsPlaced path
safe_join-IsPlaced parts path h = record {
  parts = parts;
  joined = (safe_join_iff parts path).0 h;
  resolved = resolve-safe_join parts path h;
}

All-append :
    (xs ys : List FileEntry) → All IsSafeFile xs → All IsSafeFile ys → All IsSafeFile (xs ++ ys)
All-append [] ys h k = k
All-append (x ∷ xs) ys (here, h) k = (here, All-append xs ys h k)

AllSafe-both : (a b : Option (List FileEntry)) → AllSafe a → AllSafe b → AllSafe (both a b)
unfolding AllSafe
AllSafe-both none b h k = tt
AllSafe-both (some xs) none h k = tt
AllSafe-both (some xs) (some ys) h k = All-append xs ys h k

AllSafe-one_file : (len : ℕ) (parts : List Bytes) → AllSafe (one_file len (safe_join parts))
unfolding AllSafe
AllSafe-one_file len parts = go (safe_join parts) refl
  where
    go : (found : Option Bytes) → safe_join parts ≡ found → AllSafe (one_file len found)
    go none e = tt
    go (some path) e = (inr (safe_join-IsPlaced parts path e), tt)

AllSafe-below :
    (path : Option Bytes) (sub : Option (List FileEntry)) → AllSafe sub → AllSafe (below path sub)
unfolding AllSafe
AllSafe-below none sub h = tt
AllSafe-below (some path) sub h = h

AllSafe-cut :
    (deep : Bool) (sub : Option (List FileEntry))
    → AllSafe sub
    → AllSafe (if deep then some [] else sub)
unfolding AllSafe
AllSafe-cut true sub h = tt
AllSafe-cut false sub h = h

AllSafe-node_files :
    (leaf : Option Fields) (parts : List Bytes) (sub : Option (List FileEntry))
    → AllSafe sub
    → AllSafe (node_files leaf (safe_join parts) sub)
AllSafe-node_files (some leaf) parts sub h =
    AllSafe-one_file (or_zero (as_int64 (lookup (codes "length") leaf))) parts
AllSafe-node_files none parts sub h = AllSafe-below (safe_join parts) sub h

mutual
  unfolding walk_entries walk_node AllSafe

  AllSafe-walk_entries :
      (depth : ℕ) (prefix : List Bytes) (tree : Fields) → AllSafe (walk_entries depth prefix tree)
  AllSafe-walk_entries depth prefix end = tt
  AllSafe-walk_entries depth prefix (field name val tree) =
      AllSafe-both (walk_node depth (prefix ++ name ∷ []) val) (walk_entries depth prefix tree)
        (AllSafe-walk_node depth (prefix ++ name ∷ []) val) (AllSafe-walk_entries depth prefix tree)

  AllSafe-walk_node :
      (depth : ℕ) (parts : List Bytes) (val : Value) → AllSafe (walk_node depth parts val)
  AllSafe-walk_node depth parts (dict node) =
      let sub = walk_entries (depth + 1) parts node in
      AllSafe-node_files (as_map (lookup [] node)) parts
        (if ltb 64 (depth + 1) then some [] else sub)
        (AllSafe-cut (ltb 64 (depth + 1)) sub (AllSafe-walk_entries (depth + 1) parts node))
  AllSafe-walk_node depth parts (integer n) = tt
  AllSafe-walk_node depth parts (text s) = tt
  AllSafe-walk_node depth parts (list xs) = tt
  AllSafe-walk_node depth parts other = tt

AllSafe-listed_path : (len : ℕ) (path : Option Items) → AllSafe (one_file len (listed_path path))
unfolding AllSafe
AllSafe-listed_path len none = (inl refl, tt)
AllSafe-listed_path len (some parts) = AllSafe-one_file len (strings parts)

AllSafe-listed_file : (f : Value) → AllSafe (listed_file f)
unfolding AllSafe
AllSafe-listed_file (dict d) =
    AllSafe-listed_path (or_zero (as_int64 (lookup (codes "length") d)))
      (as_list (lookup (codes "path") d))
AllSafe-listed_file (integer n) = tt
AllSafe-listed_file (text s) = tt
AllSafe-listed_file (list xs) = tt
AllSafe-listed_file other = tt

AllSafe-listed_files : (files : Items) → AllSafe (listed_files files)
unfolding AllSafe
AllSafe-listed_files nil = tt
AllSafe-listed_files (cons f files) =
    AllSafe-both (listed_file f) (listed_files files) (AllSafe-listed_file f)
      (AllSafe-listed_files files)

AllSafe-single_files : (name : Bytes) (len : Option ℕ) → AllSafe (single_files name len)
unfolding AllSafe
AllSafe-single_files name none = tt
AllSafe-single_files name (some len) = AllSafe-one_file len (name ∷ [])

AllSafe-all_listed : (files : Option Items) → AllSafe (all_listed files)
unfolding AllSafe
AllSafe-all_listed none = tt
AllSafe-all_listed (some files) = AllSafe-listed_files files

AllSafe-tree_files :
    (files : List FileEntry) (tree : Option Fields)
    → All IsSafeFile files
    → AllSafe (tree_files files tree)
unfolding AllSafe walk_file_tree
AllSafe-tree_files [] none h = tt
AllSafe-tree_files [] (some tree) h =
    AllSafe-cut (ltb 64 0) (walk_entries 0 [] tree) (AllSafe-walk_entries 0 [] tree)
AllSafe-tree_files (f ∷ files) tree h = h

-- What an accepted info dict was checked for
pub record Passed (info : Fields) (meta : TorrentMeta) : Type 0 where
  pub name : Bytes
  pub piece_length : ℕ
  pub pieces : Option Bytes
  pub files : List FileEntry
  pub positive : is_positive piece_length ≡ true
  pub checked : pieces_checked pieces ≡ true
  pub safe : All IsSafeFile files
  pub result : counted name piece_length pieces files (sum_lengths 0 files) ≡ parsed meta

failed-ne-parsed : {A : Type 0} {e : _} {meta : TorrentMeta} → failed e ≡ parsed meta → A
failed-ne-parsed h = cc

with_files-Passed :
    (info : Fields) (meta : TorrentMeta) (name : Bytes) (v : ℕ) (pieces : Option Bytes)
    (files : Option (List FileEntry))
    → is_positive v ≡ true
    → pieces_checked pieces ≡ true
    → AllSafe files
    → with_files name v pieces files ≡ parsed meta
    → Passed info meta
unfolding AllSafe
with_files-Passed info meta name v pieces none p c safe h = failed-ne-parsed h
with_files-Passed info meta name v pieces (some files) p c safe h = record {
  name = name;
  piece_length = v;
  pieces = pieces;
  files = files;
  positive = p;
  checked = c;
  safe = safe;
  result = h;
}

with_listed-Passed :
    (info : Fields) (meta : TorrentMeta) (name : Bytes) (v : ℕ) (pieces : Option Bytes)
    (single : List FileEntry) (listed : Option (List FileEntry))
    → is_positive v ≡ true
    → pieces_checked pieces ≡ true
    → All IsSafeFile single
    → AllSafe listed
    → with_listed name v pieces info single listed ≡ parsed meta
    → Passed info meta
unfolding AllSafe
with_listed-Passed info meta name v pieces single none p c s safe h = failed-ne-parsed h
with_listed-Passed info meta name v pieces single (some listed) p c s safe h =
    let tree = as_map (lookup (codes "file tree") info) in
    with_files-Passed info meta name v pieces (tree_files (single ++ listed) tree) p c
      (AllSafe-tree_files (single ++ listed) tree (All-append single listed s safe)) h

with_single-Passed :
    (info : Fields) (meta : TorrentMeta) (name : Bytes) (v : ℕ) (pieces : Option Bytes)
    (single : Option (List FileEntry))
    → is_positive v ≡ true
    → pieces_checked pieces ≡ true
    → AllSafe single
    → with_single name v pieces info single ≡ parsed meta
    → Passed info meta
unfolding AllSafe
with_single-Passed info meta name v pieces none p c safe h = failed-ne-parsed h
with_single-Passed info meta name v pieces (some single) p c safe h =
    let files = as_list (lookup (codes "files") info) in
    with_listed-Passed info meta name v pieces single (all_listed files) p c safe
      (AllSafe-all_listed files) h

passes :
    (refused : Bool) (e : Failure) (rest : Parsed) (meta : TorrentMeta)
    → (if refused then failed e else rest) ≡ parsed meta
    → (refused ≡ false) × (rest ≡ parsed meta)
passes true e rest meta h = failed-ne-parsed h
passes false e rest meta h = (refl, h)

passes' :
    (taken : Bool) (e : Failure) (rest : Parsed) (meta : TorrentMeta)
    → (if taken then rest else failed e) ≡ parsed meta
    → (taken ≡ true) × (rest ≡ parsed meta)
passes' true e rest meta h = (refl, h)
passes' false e rest meta h = failed-ne-parsed h

sized-Passed :
    (info : Fields) (meta : TorrentMeta) (name : Bytes) (v : Option ℕ) (pieces : Option Bytes)
    → sized name v pieces info ≡ parsed meta
    → Passed info meta
sized-Passed info meta name none pieces h = failed-ne-parsed h
sized-Passed info meta name (some v) pieces h =
    let len = as_int64 (lookup (codes "length") info) in
    let positive =
      passes (not (is_positive v)) bad_piece_length
        (if pieces_checked pieces then laid_out name v pieces info else failed bad_pieces) meta h in
    let checked =
      passes' (pieces_checked pieces) bad_pieces (laid_out name v pieces info) meta positive.1 in
    with_single-Passed info meta name v pieces (single_files name len) (ground (arith, positive.0))
      checked.0 (AllSafe-single_files name len) checked.1

pub parse_info_map-Passed :
    (info : Fields) (meta : TorrentMeta) → parse_info_map info ≡ parsed meta → Passed info meta
unfolding parse_info_map
parse_info_map-Passed info meta h =
    sized-Passed info meta (or_empty (as_string (lookup (codes "name") info)))
      (as_int64 (lookup (codes "piece length") info)) (as_string (lookup (codes "pieces") info)) h

parsed_injective : {a b : TorrentMeta} → parsed a ≡ parsed b → a ≡ b
parsed_injective h = cc

pub counted_lem :
    (name : Bytes) (v : ℕ) (pieces : Option Bytes) (files : List FileEntry) (total : ℕ)
    (meta : TorrentMeta)
    → counted name v pieces files total ≡ parsed meta
    → (is_mismatch v pieces files total ≡ false) × (filled name v pieces files total ≡ meta)
counted_lem name v pieces files total meta h =
    let p =
      passes (is_mismatch v pieces files total) bad_piece_count
        (parsed (filled name v pieces files total)) meta h in
    (p.0, parsed_injective p.1)

-- Every file of an accepted info dict has either the empty path or a path that is the join with "/" of components that are not empty, not "." or "..", and without a separator of either flavour or a NUL, and that the storage takes unchanged.
pub parse_info_map-IsSafeFile :
    (info : Fields) (meta : TorrentMeta)
    → parse_info_map info ≡ parsed meta
    → All IsSafeFile meta.files
parse_info_map-IsSafeFile info meta h =
    let k = parse_info_map-Passed info meta h in
    let e : k.files ≡ meta.files =
      ap TorrentMeta.files
        (counted_lem k.name k.piece_length k.pieces k.files (sum_lengths 0 k.files) meta
          k.result).1 in
    subst (All IsSafeFile) e k.safe
