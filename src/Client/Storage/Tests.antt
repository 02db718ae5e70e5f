-- ===== src/Client/Storage/Tests.antt =====
-- Two files of three and four bytes, and a piece that reaches into both.
use weightless.Prelude.{◌≡◌, ◌≢◌, refl, false, none, some, List, [], ◌∷◌, Bytes, codes, arith}
use weightless.Prelude.Path.{is_abs, volume_name, clean, clean_parts}
use weightless.Prelude.Split.{split}
use weightless.Prelude.Dict
use weightless.Prelude.Dict.{Dict}
use weightless.Client.Storage.{
  FileEntry, resolve, preallocate, span, write_loop, write_piece, written, failed, mapping_mismatch,
}
use weightless.Client.Storage.Allocation.{AllApart, preallocate-IsAllocated}
use weightless.Client.Storage.Pieces.{IsAllocated, write_piece-mapping_mismatch}

abbrev files : List FileEntry
files = record { path = codes "a/one"; size = 3 } ∷ record { path = codes "two"; size = 4 } ∷ []

abbrev disk : Dict Bytes
disk = (codes "a/one", 0 ∷ 0 ∷ 0 ∷ []) ∷ (codes "two", 0 ∷ 0 ∷ 0 ∷ 0 ∷ []) ∷ []

allocated : preallocate files [] ≡ some disk
unfolding preallocate resolve is_abs volume_name clean clean_parts split Dict.get Dict.put
allocated = refl

refused : resolve (codes "a/../../b") ≡ none
unfolding resolve is_abs volume_name clean clean_parts split
refused = refl

spanning :
    write_piece (λ path. false) files 1 2 (7 ∷ 8 ∷ []) disk
    ≡ written ((codes "a/one", 0 ∷ 0 ∷ 7 ∷ []) ∷ (codes "two", 8 ∷ 0 ∷ 0 ∷ 0 ∷ []) ∷ [])
unfolding write_piece write_loop span resolve is_abs volume_name clean clean_parts split Dict.get
    Dict.put
spanning = refl

two_is_not_one : resolve (codes "two") ≢ some (codes "a/one")
unfolding resolve is_abs volume_name clean clean_parts split
two_is_not_one e = cc

files_apart : AllApart files
unfolding resolve is_abs volume_name clean clean_parts split
files_apart = ((two_is_not_one, tt), (tt, tt))

disk-IsAllocated : IsAllocated (λ path. false) disk files
disk-IsAllocated = preallocate-IsAllocated files [] disk files_apart allocated

preallocate-IsAllocated_example : IsAllocated (λ path. false) disk files
preallocate-IsAllocated_example = preallocate-IsAllocated files [] disk files_apart allocated

write_piece-mapping_mismatch_example :
    write_piece (λ path. false) files 3 2 (7 ∷ 8 ∷ []) disk ≡ failed mapping_mismatch
write_piece-mapping_mismatch_example =
    write_piece-mapping_mismatch (λ path. false) files 3 2 (7 ∷ 8 ∷ []) disk disk-IsAllocated
      (omega arith) (omega arith) (omega arith) (omega arith)
