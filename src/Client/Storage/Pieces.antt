-- ===== src/Client/Storage/Pieces.antt =====
-- WritePiece against one content: the files put together.
use weightless.Prelude.{
  ℕ, ◌+◌, ◌-◌, ◌*◌, ◌^◌, ◌<◌, ◌≡◌, ◌≢◌, refl, sym, ap, ◌∙◌, Bool, true, false, ◌&&◌, Option, none,
  some, List, [], ◌∷◌, ◌++◌, Bytes, ◌===◌, ===_iff, ===_refl, ltb, ltb→lt, not-ltb→le, ◌==◌,
  if◌then◌else◌, length, drop, length-take, length-drop, min, arith, Bool-cases, inl, inr,
}
use weightless.Prelude.Dict
use weightless.Prelude.Dict.{Dict, get-put}
use weightless.Client.Storage.{
  FileEntry, resolve, or_empty, write_at, mapping_mismatch, Outcome, written, failed, span,
  store_at, write_loop, write_piece,
}
use weightless.Client.Storage.Overlay.{
  overlay, overlay-append, overlay_before, overlay_behind, span_lem, write_at-span,
}

-- No file of the list is stored under the path.
abbrev pub IsApart : Bytes → List FileEntry → Type 0
IsApart rel [] = Unit
IsApart rel (fe ∷ files) = (resolve fe.path ≢ some rel) × IsApart rel files

-- The file has its size on the disk, and the system lets it be written.
pub record IsOnDisk (io_fails : Bytes → Bool) (disk : Dict Bytes) (fe : FileEntry) (rel : Bytes)
    : Type 0 where
  pub content : Bytes
  pub resolved : resolve fe.path ≡ some rel
  pub writable : io_fails rel ≡ false
  pub stored : Dict.get rel disk ≡ some content
  pub sized : length content ≡ fe.size

-- As Preallocate leaves the disk, for files of different paths.
abbrev pub IsAllocated : (Bytes → Bool) → Dict Bytes → List FileEntry → Type 0
IsAllocated io_fails disk [] = Unit
IsAllocated io_fails disk (fe ∷ files) =
    ((rel : Bytes) × IsOnDisk io_fails disk fe rel × IsApart rel files)
    × IsAllocated io_fails disk files

abbrev pub content_at : Option Bytes → Dict Bytes → Bytes
content_at none disk = []
content_at (some rel) disk = or_empty (Dict.get rel disk)

-- The contents of the files, put together
abbrev pub view : List FileEntry → Dict Bytes → Bytes
view [] disk = []
view (fe ∷ files) disk = content_at (resolve fe.path) disk ++ view files disk

abbrev pub total_size : List FileEntry → ℕ
total_size [] = 0
total_size (fe ∷ files) = fe.size + total_size files

-- How many of `len` bytes at an offset fall into `size` bytes from `current` on
abbrev met : ℕ → ℕ → ℕ → ℕ → ℕ
met offset len current size = min (size - (offset - current)) (len - (current - offset))

min_behind : (a b l : ℕ) → min ((a + b) - 0) l ≡ min (a - 0) l + min (b - 0) (l - a)
min_behind a b l = omega arith

min_front : (a b d l : ℕ) → min ((a + b) - d) l ≡ min (a - d) l + min (b - (d - a)) (l - (a - d))
min_front a b d l = omega arith

met_sum :
    (offset len current a b : ℕ)
    → met offset len current (a + b) ≡ met offset len current a + met offset len (current + a) b
met_sum offset len current a b = elim (Bool-cases (ltb current offset)) [
  | inl front ↦
      let d = offset - current in
      let later : offset - (current + a) ≡ d - a = omega arith in
      let none_front : current - offset ≡ 0 = ground arith in
      let past : (current + a) - offset ≡ a - d = ground arith in
      let whole : len - 0 ≡ len = omega arith in
      rw (later, none_front, past, whole) (min_front a b d len)
  | inr behind ↦
      let l = len - (current - offset) in
      let le = not-ltb→le current offset behind in
      let none_here : offset - current ≡ 0 = omega (arith, le) in
      let none_later : offset - (current + a) ≡ 0 = omega (arith, le) in
      let less : len - ((current + a) - offset) ≡ l - a = omega (arith, le) in
      rw (none_here, none_later, less) (min_behind a b l)
]

content_at-IsOnDisk :
    (io_fails : Bytes → Bool) (disk : Dict Bytes) (fe : FileEntry) (rel : Bytes)
    (k : IsOnDisk io_fails disk fe rel)
    → content_at (resolve fe.path) disk ≡ k.content
content_at-IsOnDisk io_fails disk fe rel k = rw (k.resolved, k.stored) refl

-- A write elsewhere changes none of the files.
put_apart :
    (io_fails : Bytes → Bool) (rel x : Bytes) (disk : Dict Bytes) (files : List FileEntry)
    → IsApart rel files
    → IsAllocated io_fails disk files
    → IsAllocated io_fails (Dict.put rel x disk) files
      × (view files (Dict.put rel x disk) ≡ view files disk)
put_apart io_fails rel x disk [] apart k = (tt, refl)
put_apart io_fails rel x disk (fe ∷ files) (other, apart) ((rel', k, apart'), ks) =
    let (ks', same) = put_apart io_fails rel x disk files apart ks in
    let differ : (rel === rel') ≡ false = ground (arith, ===_iff rel rel', k.resolved, other) in
    let kept : Dict.get rel' (Dict.put rel x disk) ≡ Dict.get rel' disk =
      get-put rel rel' x disk ∙ rw differ refl in
    let k' : IsOnDisk io_fails (Dict.put rel x disk) fe rel' = record {
      content = k.content;
      resolved = k.resolved;
      writable = k.writable;
      stored = kept ∙ k.stored;
      sized = k.sized;
    } in
    (((rel', k', apart'), ks'), rw (k.resolved, kept, same) refl)

module _ (io_fails : Bytes → Bool) (offset : ℕ) (bytes : Bytes) where
  -- What a round of the loop leaves: the file laid over, and the rest as it was.
  record LoopRound (fe : FileEntry) (files : List FileEntry) (current done : ℕ) (disk : Dict Bytes)
      (rel content : Bytes) : Type 0 where
    next : Dict Bytes
    runs :
        write_loop io_fails offset bytes (fe ∷ files) current done disk
        ≡ write_loop io_fails offset bytes files
            (current + fe.size)
            (done + met offset (length bytes) current fe.size)
            next
    laid_over : Dict.get rel next ≡ some (overlay offset bytes current content)
    others : (r : Bytes) → rel ≢ r → Dict.get r next ≡ Dict.get r disk
    allocated : IsAllocated io_fails next files
    same_view : view files next ≡ view files disk

  round_met :
      (fe : FileEntry) (files : List FileEntry) (current done : ℕ) (disk : Dict Bytes) (rel : Bytes)
      (k : IsOnDisk io_fails disk fe rel)
      → offset < current + fe.size
      → current < offset + length bytes
      → IsApart rel files
      → IsAllocated io_fails disk files
      → LoopRound fe files current done disk rel k.content
  unfolding write_loop
  round_met fe files current done disk rel k h l apart ks =
      let s = span offset bytes current fe.size in
      let x = write_at s.at s.bytes k.content in
      let (ks', same) = put_apart io_fails rel x disk files apart ks in
      let meets : (ltb offset (current + fe.size) && ltb current (offset + length bytes)) ≡ true =
        ground arith in
      let stores : store_at io_fails s (resolve fe.path) disk ≡ written (Dict.put rel x disk) =
        rw (k.resolved, k.stored, k.writable) refl in
      let size : length s.bytes ≡ met offset (length bytes) current fe.size =
        ap length (span_lem offset bytes current fe.size h l).1
        ∙ length-take (fe.size - (offset - current)) (drop (current - offset) bytes)
        ∙ ap (min (fe.size - (offset - current))) (length-drop (current - offset) bytes) in
      record {
        next = Dict.put rel x disk;
        runs = rw (meets, stores, size, write_loop) refl;
        laid_over =
            get-put rel rel x disk
            ∙ rw (===_refl rel)
                (ap some (write_at-span offset bytes current fe.size k.content h l k.sized));
        others = λ r other. get-put rel r x disk ∙ differ r other;
        allocated = ks';
        same_view = same;
      }
    where
      differ :
          (r : Bytes)
          → rel ≢ r
          → (if rel === r
              then some (
                  write_at
                    (span offset bytes current fe.size).at
                    (span offset bytes current fe.size).bytes
                    k.content)
              else Dict.get r disk)
            ≡ Dict.get r disk
      differ r other = ground (arith, ===_iff rel r)

  round_apart :
      (fe : FileEntry) (files : List FileEntry) (current done : ℕ) (disk : Dict Bytes) (rel : Bytes)
      (k : IsOnDisk io_fails disk fe rel)
      → (ltb offset (current + fe.size) && ltb current (offset + length bytes)) ≡ false
      → IsAllocated io_fails disk files
      → LoopRound fe files current done disk rel k.content
  unfolding write_loop
  round_apart fe files current done disk rel k misses ks =
      let skips : write_loop io_fails offset bytes (fe ∷ files) current done disk
          ≡ write_loop io_fails offset bytes files (current + fe.size) done disk =
        rw (misses, write_loop) refl in
      let nothing : done ≡ done + met offset (length bytes) current fe.size = met_none misses in
      let stays : overlay offset bytes current k.content ≡ k.content =
        elim (Bool-cases (ltb offset (current + fe.size))) [
          | inl early ↦
              let late : ltb current (offset + length bytes) ≡ false =
                ground (arith, misses, early) in
              overlay_behind offset bytes current k.content
                (not-ltb→le current (offset + length bytes) late)
          | inr before ↦
              let le = not-ltb→le offset (current + fe.size) before in
              overlay_before offset bytes current k.content (omega (arith, le, k.sized))
        ] in
      record {
        next = disk;
        runs =
            skips
            ∙ ap (λ d. write_loop io_fails offset bytes files (current + fe.size) d disk) nothing;
        laid_over = k.stored ∙ ap some (sym stays);
        others = λ r other. refl;
        allocated = ks;
        same_view = refl;
      }
    where
      met_none :
          (ltb offset (current + fe.size) && ltb current (offset + length bytes)) ≡ false
          → done ≡ done + met offset (length bytes) current fe.size
      met_none misses = ground arith

  round :
      (fe : FileEntry) (files : List FileEntry) (current done : ℕ) (disk : Dict Bytes) (rel : Bytes)
      (k : IsOnDisk io_fails disk fe rel)
      → IsApart rel files
      → IsAllocated io_fails disk files
      → LoopRound fe files current done disk rel k.content
  round fe files current done disk rel k apart ks =
      elim (Bool-cases (ltb offset (current + fe.size) && ltb current (offset + length bytes))) [
        | inl meets ↦
            let start : ltb offset (current + fe.size) ≡ true = ground (arith, meets) in
            let stop : ltb current (offset + length bytes) ≡ true = ground (arith, meets) in
            round_met fe files current done disk rel k (ltb→lt offset (current + fe.size) start)
              (ltb→lt current (offset + length bytes) stop) apart ks
        | inr misses ↦ round_apart fe files current done disk rel k misses ks
      ]

  -- What the loop leaves, when the files are there
  record Rest (files : List FileEntry) (current done : ℕ) (disk : Dict Bytes) : Type 0 where
    last : Dict Bytes
    runs : write_loop io_fails offset bytes files current done disk ≡ (
        if (done + met offset (length bytes) current (total_size files)) == length bytes
        then written last
        else failed mapping_mismatch)
    laid_over : view files last ≡ overlay offset bytes current (view files disk)
    others : (r : Bytes) → IsApart r files → Dict.get r last ≡ Dict.get r disk

  nothing_left :
      (current done : ℕ) (disk : Dict Bytes)
      → write_loop io_fails offset bytes [] current done disk ≡ (
          if (done + met offset (length bytes) current 0) == length bytes
          then written disk
          else failed mapping_mismatch)
  unfolding write_loop
  nothing_left current done disk =
      let none_met : done ≡ done + met offset (length bytes) current 0 = omega arith in
      ap (λ n. if n == length bytes then written disk else failed mapping_mismatch) none_met

  write_loop-overlay :
      (files : List FileEntry) (current done : ℕ) (disk : Dict Bytes)
      → IsAllocated io_fails disk files
      → Rest files current done disk
  write_loop-overlay [] current done disk ks = record {
    last = disk;
    runs = nothing_left current done disk;
    laid_over = refl;
    others = λ r apart. refl;
  }
  write_loop-overlay (fe ∷ files) current done disk ((rel, k, apart), ks) =
      let r = round fe files current done disk rel k apart ks in
      let len = length bytes in
      let now = met offset len current fe.size in
      let later = met offset len (current + fe.size) (total_size files) in
      let rest = write_loop-overlay files (current + fe.size) (done + now) r.next r.allocated in
      let kept : Dict.get rel rest.last ≡ some (overlay offset bytes current k.content) =
        rest.others rel apart ∙ r.laid_over in
      let sums : (done + now) + later ≡ done + met offset len current (fe.size + total_size files) =
        omega (arith, met_sum offset len current fe.size (total_size files)) in
      let files_over : view files rest.last
          ≡ overlay offset bytes (current + fe.size) (view files disk) =
        rest.laid_over ∙ ap (overlay offset bytes (current + fe.size)) r.same_view in
      let cut : overlay offset bytes current (k.content ++ view files disk)
          ≡ overlay offset bytes current k.content
            ++ overlay offset bytes (current + fe.size) (view files disk) =
        overlay-append offset bytes current (current + fe.size) k.content (view files disk)
          (ap (◌+◌ current) k.sized) in
      record {
        last = rest.last;
        runs =
            r.runs
            ∙ rest.runs
            ∙ ap (λ n. if n == length bytes then written rest.last else failed mapping_mismatch)
                sums;
        laid_over = rw (k.resolved, kept, k.stored, files_over, cut) refl;
        others = λ q (other, apart').
            rest.others q apart' ∙ r.others q (λ same. other (k.resolved ∙ ap some same));
      }

-- What a piece of `bytes` leaves on the disk
pub record IsStored (io_fails : Bytes → Bool) (files : List FileEntry) (offset : ℕ) (bytes : Bytes)
    (disk : Dict Bytes) (out : Outcome) : Type 0 where
  pub last : Dict Bytes
  pub wrote : out ≡ written last
  pub laid_over : view files last ≡ overlay offset bytes 0 (view files disk)
  pub others : (r : Bytes) → IsApart r files → Dict.get r last ≡ Dict.get r disk

-- For files of different accepted paths that have their sizes on the disk and that the system lets be written, WritePiece refuses a piece of at least one byte that ends behind the last file, as long as the end of the piece and the sizes of the files together are int64.
pub write_piece-mapping_mismatch :
    (io_fails : Bytes → Bool) (files : List FileEntry) (index piece_length : ℕ) (bytes : Bytes)
    (disk : Dict Bytes)
    → IsAllocated io_fails disk files
    → index * piece_length + length bytes < 2 ^ 63
    → total_size files < 2 ^ 63
    → total_size files < index * piece_length + length bytes
    → 0 < length bytes
    → write_piece io_fails files index piece_length bytes disk ≡ failed mapping_mismatch
unfolding write_piece
write_piece-mapping_mismatch io_fails files index piece_length bytes disk ks small_piece small_files
      past some_bytes =
    let offset = index * piece_length in
    let len = length bytes in
    let rest = write_loop-overlay io_fails offset bytes files 0 0 disk ks in
    let short : (0 + met offset len 0 (total_size files)) == len ≡ false =
      ground (arith, past, some_bytes) in
    rest.runs ∙ rw short refl
