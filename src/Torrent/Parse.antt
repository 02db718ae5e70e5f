-- ===== src/Torrent/Parse.antt =====
-- internal/torrent/parse.go. The decoder is another library's, so it is a parameter; the program
-- asserts the dynamic types of what it returns, which are `Value` here. An int64 is its
-- two's-complement word, a number below 2 ^ 64, and int has 64 bits. A map lists its entries in the
-- order in which a loop visits them.
pub mod Paths
pub mod Layout
pub mod Counts
mod Tests
use weightless.Prelude.{
  ℕ, zero, suc, ◌+◌, ◌-◌, ◌*◌, ◌/◌, ◌%◌, ◌^◌, Bool, true, false, not, ◌&&◌, ◌||◌, Option, none,
  some, List, [], ◌∷◌, ◌++◌, Bytes, codes, ◌===◌, ltb, leb, ◌==◌, if◌then◌else◌, length,
}
use weightless.Prelude.Path.{is_abs, volume_name, join_path, dot, dot_dot}
use weightless.Prelude.Split.{contains}
use weightless.Prelude.Word.{add64}
use weightless.Bencode.{validate, torrent_limits, Outcome, ok, err, out_of_fuel}

mutual
  pub data Value : Type 0 where
    integer : ℕ → Value
    text : Bytes → Value
    list : Items → Value
    dict : Fields → Value
    other : Value

  pub data Items : Type 0 where
    nil : Items
    cons : Value → Items → Items

  pub data Fields : Type 0 where
    end : Fields
    field : Bytes → Value → Fields → Fields

pub record FileEntry : Type 0 where
  pub path : Bytes
  pub length : ℕ

pub record TorrentMeta : Type 0 where
  pub name : Bytes
  pub piece_length : ℕ
  pub piece_count : ℕ
  pub total_size : ℕ
  pub files : List FileEntry
  pub pieces : Option Bytes

pub data Failure : Type 0 where
  invalid undecodable no_info no_piece_length bad_piece_length bad_pieces bad_name bad_path
        bad_file_tree bad_piece_count :
      Failure

pub data Parsed : Type 0 where
  parsed : TorrentMeta → Parsed
  failed : Failure → Parsed

-- info[key], with `none` for a missing key
abbrev pub lookup : Bytes → Fields → Option Value
lookup key end = none
lookup key (field k v fs) = if k === key then some v else lookup key fs

-- The type assertions
abbrev pub as_int64 : Option Value → Option ℕ
as_int64 (some (integer n)) = some n
as_int64 v = none

abbrev pub as_string : Option Value → Option Bytes
as_string (some (text s)) = some s
as_string v = none

abbrev pub as_list : Option Value → Option Items
as_list (some (list xs)) = some xs
as_list v = none

abbrev pub as_map : Option Value → Option Fields
as_map (some (dict fs)) = some fs
as_map v = none

abbrev pub is_negative : ℕ → Bool
is_negative a = leb (2 ^ 63) a

-- The quotient by a positive number rounds towards 0.
abbrev pub quotient : ℕ → ℕ → ℕ
quotient a b = if is_negative a then (2 ^ 64 - (2 ^ 64 - a) / b) % 2 ^ 64 else a / b

abbrev pub is_positive : ℕ → Bool
is_positive a = not (a == 0) && not (is_negative a)

abbrev pub is_bad_component : Bytes → Bool
unfolding is_abs volume_name
is_bad_component p =
    p === []
    || (p === dot || p === dot_dot)
    || (contains b'/' p || contains b'\\' p || contains 0 p)
    || (is_abs p || not (volume_name p === []))

abbrev pub any_bad : List Bytes → Bool
any_bad [] = false
any_bad (p ∷ parts) = is_bad_component p || any_bad parts

unfoldable pub safe_join : List Bytes → Option Bytes
unfolding join_path is_abs
safe_join [] = none
safe_join (p ∷ parts) =
    if any_bad (p ∷ parts)
    then none
    else if is_abs (join_path (p ∷ parts))
    then none
    else some (join_path (p ∷ parts))

-- An absent length is 0.
abbrev pub or_zero : Option ℕ → ℕ
or_zero none = 0
or_zero (some n) = n

abbrev pub or_empty : Option Bytes → Bytes
or_empty none = []
or_empty (some s) = s

abbrev pub one_file : ℕ → Option Bytes → Option (List FileEntry)
one_file len none = none
one_file len (some path) = some (record { path = path; length = len } ∷ [])

abbrev pub both : Option (List FileEntry) → Option (List FileEntry) → Option (List FileEntry)
both none more = none
both (some files) none = none
both (some files) (some more) = some (files ++ more)

-- An unsafe path is refused before what is below it is walked.
abbrev pub below : Option Bytes → Option (List FileEntry) → Option (List FileEntry)
below none sub = none
below (some path) sub = sub

-- A node with a leaf is a file, every other one a directory.
abbrev pub node_files :
    Option Fields → Option Bytes → Option (List FileEntry) → Option (List FileEntry)
node_files (some leaf) path sub = one_file (or_zero (as_int64 (lookup (codes "length") leaf))) path
node_files none path sub = below path sub

-- The rounds of walkFileTree's loop, and one round for a node; a tree deeper than 64 has no files.
mutual
  unfolding safe_join

  pub walk_entries : ℕ → List Bytes → Fields → Option (List FileEntry)
  walk_entries depth prefix end = some []
  walk_entries depth prefix (field name val tree) =
      let more = walk_entries depth prefix tree in
      both (walk_node depth (prefix ++ name ∷ []) val) more

  pub walk_node : ℕ → List Bytes → Value → Option (List FileEntry)
  walk_node depth parts (dict node) =
      let sub = walk_entries (depth + 1) parts node in
      node_files (as_map (lookup [] node)) (safe_join parts)
        (if ltb 64 (depth + 1) then some [] else sub)
  walk_node depth parts val = some []

pub walk_file_tree : Fields → ℕ → Option (List FileEntry)
unfolding walk_entries
walk_file_tree tree depth = if ltb 64 depth then some [] else walk_entries depth [] tree

-- The components that are strings
abbrev pub strings : Items → List Bytes
strings nil = []
strings (cons (text s) xs) = s ∷ strings xs
strings (cons v xs) = strings xs

abbrev pub listed_path : Option Items → Option Bytes
listed_path none = some []
listed_path (some parts) = safe_join (strings parts)

-- A listed file without a path keeps the empty one.
abbrev pub listed_file : Value → Option (List FileEntry)
listed_file (dict d) =
    one_file (or_zero (as_int64 (lookup (codes "length") d)))
      (listed_path (as_list (lookup (codes "path") d)))
listed_file v = some []

abbrev pub listed_files : Items → Option (List FileEntry)
listed_files nil = some []
listed_files (cons f files) = both (listed_file f) (listed_files files)

abbrev pub sum_lengths : ℕ → List FileEntry → ℕ
sum_lengths total [] = total
sum_lengths total (f ∷ files) = sum_lengths (add64 total f.length) files

abbrev pub pieces_checked : Option Bytes → Bool
pieces_checked none = true
pieces_checked (some v) = length v % 20 == 0

abbrev pub count_pieces : Option Bytes → ℕ
count_pieces none = 0
count_pieces (some v) = length v / 20

abbrev pub is_none {ℓ} : {A : Type ℓ} → List A → Bool
is_none [] = true
is_none (x ∷ xs) = false

abbrev pub is_there : Option Bytes → Bool
is_there none = false
is_there (some v) = true

abbrev pub wanted : ℕ → ℕ → ℕ
wanted total piece_length = quotient (add64 (add64 total piece_length) (2 ^ 64 - 1)) piece_length

abbrev pub is_mismatch : ℕ → Option Bytes → List FileEntry → ℕ → Bool
is_mismatch piece_length pieces files total =
    is_there pieces
    && is_positive piece_length
    && not (is_none files)
    && not (count_pieces pieces == wanted total piece_length)

abbrev pub recount : ℕ → Option Bytes → ℕ → ℕ
recount piece_length pieces total =
    let count = count_pieces pieces in
    if count == 0 && is_positive piece_length && is_positive total
    then wanted total piece_length
    else count

abbrev pub filled : Bytes → ℕ → Option Bytes → List FileEntry → ℕ → TorrentMeta
filled name piece_length pieces files total = record {
  name = name;
  piece_length = piece_length;
  piece_count = recount piece_length pieces total;
  total_size = total;
  files = files;
  pieces = pieces;
}

-- The cross-check, and the count where there is no pieces string
abbrev pub counted : Bytes → ℕ → Option Bytes → List FileEntry → ℕ → Parsed
counted name piece_length pieces files total =
    if is_mismatch piece_length pieces files total
    then failed bad_piece_count
    else parsed (filled name piece_length pieces files total)

abbrev pub single_files : Bytes → Option ℕ → Option (List FileEntry)
single_files name none = some []
single_files name (some len) = one_file len (safe_join (name ∷ []))

abbrev pub all_listed : Option Items → Option (List FileEntry)
all_listed none = some []
all_listed (some files) = listed_files files

abbrev pub tree_files : List FileEntry → Option Fields → Option (List FileEntry)
tree_files [] (some tree) = walk_file_tree tree 0
tree_files files tree = some files

-- The three layouts are tried in order.
abbrev pub with_files : Bytes → ℕ → Option Bytes → Option (List FileEntry) → Parsed
with_files name piece_length pieces none = failed bad_file_tree
with_files name piece_length pieces (some files) =
    counted name piece_length pieces files (sum_lengths 0 files)

abbrev pub with_listed :
    Bytes → ℕ → Option Bytes → Fields → List FileEntry → Option (List FileEntry) → Parsed
with_listed name piece_length pieces info single none = failed bad_path
with_listed name piece_length pieces info single (some listed) =
    with_files name piece_length pieces
      (tree_files (single ++ listed) (as_map (lookup (codes "file tree") info)))

abbrev pub with_single : Bytes → ℕ → Option Bytes → Fields → Option (List FileEntry) → Parsed
with_single name piece_length pieces info none = failed bad_name
with_single name piece_length pieces info (some single) =
    with_listed name piece_length pieces info single
      (all_listed (as_list (lookup (codes "files") info)))

abbrev pub laid_out : Bytes → ℕ → Option Bytes → Fields → Parsed
laid_out name piece_length pieces info =
    with_single name piece_length pieces info
      (single_files name (as_int64 (lookup (codes "length") info)))

abbrev pub sized : Bytes → Option ℕ → Option Bytes → Fields → Parsed
sized name none pieces info = failed no_piece_length
sized name (some v) pieces info =
    if not (is_positive v)
    then failed bad_piece_length
    else if pieces_checked pieces
    then laid_out name v pieces info
    else failed bad_pieces

pub parse_info_map : Fields → Parsed
parse_info_map info =
    sized (or_empty (as_string (lookup (codes "name") info)))
      (as_int64 (lookup (codes "piece length") info)) (as_string (lookup (codes "pieces") info))
      info

module _ (decode : Bytes → Option Fields) where
  abbrev pub parse_decoded : Option Fields → Parsed
  unfolding parse_info_map
  parse_decoded none = failed undecodable
  parse_decoded (some info) = parse_info_map info

  abbrev pub parse_root : Option Fields → Parsed
  unfolding parse_info_map
  parse_root none = failed undecodable
  parse_root (some raw) = elim (as_map (lookup (codes "info") raw)) [
    | none ↦ failed no_info
    | some info ↦ parse_info_map info
  ]

  pub parse : Bytes → Parsed
  parse bytes = elim (validate bytes torrent_limits) [
    | ok u ↦ parse_root (decode bytes)
    | err e ↦ failed invalid
    | out_of_fuel ↦ failed invalid
  ]

  pub parse_info : Bytes → Parsed
  parse_info bytes = elim (validate bytes torrent_limits) [
    | ok u ↦ parse_decoded (decode bytes)
    | err e ↦ failed invalid
    | out_of_fuel ↦ failed invalid
  ]
