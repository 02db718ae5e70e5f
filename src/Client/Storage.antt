-- ===== src/Client/Storage.antt =====
-- internal/client/storage.go. The files below the download directory are a map from cleaned relative
-- paths to contents; symbolic links, directories and permissions are the operating system's, and so are
-- the errors of MkdirAll, OpenFile and Truncate, which Preallocate here never meets. A write
-- of `io_fails` is one that the system refuses. Offsets and the sums of
-- sizes are unbounded numbers: below 2 ^ 63 they are the int64 of the code, which wraps beyond.
pub mod Overlay
pub mod Pieces
pub mod Allocation
mod Tests
use weightless.Prelude.{
  ℕ, zero, suc, ◌+◌, ◌-◌, ◌*◌, Bool, true, false, not, ◌&&◌, ◌||◌, Option, none, some, List, [],
  ◌∷◌, ◌++◌, Bytes, codes, ◌===◌, after_prefix, ltb, ◌==◌, if◌then◌else◌, length, take, drop,
  replicate, min,
}
use weightless.Prelude.Dict
use weightless.Prelude.Dict.{Dict}
use weightless.Prelude.Path.{is_abs, volume_name, clean, dot, dot_dot}

pub record FileEntry : Type 0 where
  pub path : Bytes
  pub size : ℕ

abbrev pub is_some {ℓ} : {A : Type ℓ} → Option A → Bool
is_some none = false
is_some (some a) = true

unfoldable pub resolve : Bytes → Option Bytes
resolve rel =
    let cleaned = clean rel in
    if rel === []
    then none
    else if is_abs rel || not (volume_name rel === [])
    then none
    else if cleaned === dot
    then none
    else if cleaned === dot_dot || is_some (after_prefix (codes "../") cleaned)
    then none
    else some cleaned

-- f.Truncate: what is there is cut or filled up with zeros.
abbrev pub truncate : ℕ → Bytes → Bytes
truncate size content = take size content ++ replicate (size - length content) 0

abbrev pub or_empty : Option Bytes → Bytes
or_empty none = []
or_empty (some content) = content

abbrev pub allocate : FileEntry → Option Bytes → Dict Bytes → Option (Dict Bytes)
allocate fe none disk = none
allocate fe (some rel) disk =
    some (Dict.put rel (truncate fe.size (or_empty (Dict.get rel disk))) disk)

-- The files are created and sized; `none` for a path that is refused.
pub preallocate : List FileEntry → Dict Bytes → Option (Dict Bytes)
preallocate [] disk = some disk
preallocate (fe ∷ files) disk = elim (allocate fe (resolve fe.path) disk) [
  | none ↦ none
  | some next ↦ preallocate files next
]

-- f.WriteAt
abbrev pub write_at : ℕ → Bytes → Bytes → Bytes
write_at at bytes content =
    (take at content ++ replicate (at - length content) 0)
    ++ bytes
    ++ drop (at + length bytes) content

pub data Failure : Type 0 where
  bad_path no_file io_error mapping_mismatch : Failure

pub data Outcome : Type 0 where
  written : Dict Bytes → Outcome
  failed : Failure → Outcome

-- Where in the file the piece goes, and which of its bytes.
pub record Span : Type 0 where
  pub at : ℕ
  pub bytes : Bytes

unfoldable pub span : ℕ → Bytes → ℕ → ℕ → Span
span offset bytes current size =
    let at = if ltb current offset then offset - current else 0 in
    let start = if ltb offset current then current - offset else 0 in
    let rest = start + (size - at) in
    let stop = if ltb (length bytes) rest then length bytes else rest in
    record { at = at; bytes = take (stop - start) (drop start bytes) }

abbrev pub store_span : (Bytes → Bool) → Span → Bytes → Option Bytes → Dict Bytes → Outcome
store_span io_fails s rel none disk = failed no_file
store_span io_fails s rel (some content) disk =
    if io_fails rel
    then failed io_error
    else written (Dict.put rel (write_at s.at s.bytes content) disk)

abbrev pub store_at : (Bytes → Bool) → Span → Option Bytes → Dict Bytes → Outcome
store_at io_fails s none disk = failed bad_path
store_at io_fails s (some rel) disk = store_span io_fails s rel (Dict.get rel disk) disk

-- The files in order, with the position of the first and the bytes written so far.
unfoldable pub write_loop :
    (Bytes → Bool) → ℕ → Bytes → List FileEntry → ℕ → ℕ → Dict Bytes → Outcome
unfolding span
write_loop io_fails offset bytes [] current done disk =
    if done == length bytes then written disk else failed mapping_mismatch
write_loop io_fails offset bytes (fe ∷ files) current done disk =
    let s = span offset bytes current fe.size in
    elim (ltb offset (current + fe.size) && ltb current (offset + length bytes)) [
      | true ↦ elim (store_at io_fails s (resolve fe.path) disk) [
        | written next ↦
            write_loop io_fails offset bytes files (current + fe.size) (done + length s.bytes) next
        | failed e ↦ failed e
      ]
      | false ↦ write_loop io_fails offset bytes files (current + fe.size) done disk
    ]

unfoldable pub write_piece : (Bytes → Bool) → List FileEntry → ℕ → ℕ → Bytes → Dict Bytes → Outcome
unfolding write_loop
write_piece io_fails files index piece_length bytes disk =
    write_loop io_fails (index * piece_length) bytes files 0 0 disk
