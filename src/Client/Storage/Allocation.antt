-- ===== src/Client/Storage/Allocation.antt =====
-- What Preallocate leaves: the files that WritePiece relies on.
use weightless.Prelude.{
  ℕ, ◌-◌, ◌≡◌, ◌≢◌, refl, sym, ap, ◌∙◌, false, Option, none, some, List, [], ◌∷◌, Bytes, ◌===◌,
  ===_iff, ===_refl, length, length-append, length-take, length-replicate, take, replicate, arith,
  subst, Option-cases, inl, inr,
}
use weightless.Prelude.Dict
use weightless.Prelude.Dict.{Dict, get-put}
use weightless.Client.Storage.{FileEntry, resolve, truncate, or_empty, preallocate}
use weightless.Client.Storage.Pieces.{IsApart, IsAllocated}

abbrev IsApartFrom : Option Bytes → List FileEntry → Type 0
IsApartFrom none files = Unit
IsApartFrom (some rel) files = IsApart rel files

-- No two files are stored under one path.
abbrev pub AllApart : List FileEntry → Type 0
AllApart [] = Unit
AllApart (fe ∷ files) = IsApartFrom (resolve fe.path) files × AllApart files

length-truncate : (size : ℕ) (content : Bytes) → length (truncate size content) ≡ size
length-truncate size content = omega (
  arith,
  length-append (take size content) (replicate (size - length content) 0),
  length-take size content,
  length-replicate {A = ℕ} (size - length content) 0,
)

allocated_next : FileEntry → Bytes → Dict Bytes → Dict Bytes
allocated_next fe rel disk = Dict.put rel (truncate fe.size (or_empty (Dict.get rel disk))) disk

preallocate-resolve :
    (fe : FileEntry) (files : List FileEntry) (disk : Dict Bytes) (rel : Bytes)
    → resolve fe.path ≡ some rel
    → preallocate (fe ∷ files) disk ≡ preallocate files (allocated_next fe rel disk)
unfolding preallocate allocated_next
preallocate-resolve fe files disk rel e = rw (e, preallocate) refl

preallocate-refused :
    (fe : FileEntry) (files : List FileEntry) (disk next : Dict Bytes)
    → resolve fe.path ≡ none
    → preallocate (fe ∷ files) disk ≢ some next
unfolding preallocate
preallocate-refused fe files disk next e h = none_ne_some (sym refused ∙ h)
  where
    refused : preallocate (fe ∷ files) disk ≡ none
    refused = rw (e, preallocate) refl

    none_ne_some : ◌≡◌ {A = Option (Dict Bytes)} none (some next) → ⊥
    none_ne_some k = cc

some_injective : {a b : Dict Bytes} → some a ≡ some b → a ≡ b
some_injective h = cc

put_elsewhere :
    (path rel : Bytes) (fe : FileEntry) (disk : Dict Bytes)
    → (path === rel) ≡ false
    → Dict.get rel (allocated_next fe path disk) ≡ Dict.get rel disk
unfolding allocated_next
put_elsewhere path rel fe disk differ =
    get-put path rel (truncate fe.size (or_empty (Dict.get path disk))) disk ∙ rw differ refl

put_here :
    (path : Bytes) (fe : FileEntry) (disk : Dict Bytes)
    → Dict.get path (allocated_next fe path disk)
      ≡ some (truncate fe.size (or_empty (Dict.get path disk)))
unfolding allocated_next
put_here path fe disk =
    get-put path path (truncate fe.size (or_empty (Dict.get path disk))) disk
    ∙ rw (===_refl path) refl

-- A file under another path is left alone.
get-preallocate :
    (files : List FileEntry) (disk next : Dict Bytes) (rel : Bytes)
    → preallocate files disk ≡ some next
    → IsApart rel files
    → Dict.get rel next ≡ Dict.get rel disk
unfolding preallocate
get-preallocate [] disk next rel h apart = ap (Dict.get rel) (sym (some_injective h))
get-preallocate (fe ∷ files) disk next rel h (other, apart) =
    elim (Option-cases (resolve fe.path)) [
      | inl e ↦ absurd (preallocate-refused fe files disk next e h)
      | inr (path, e) ↦
          let h' = sym (preallocate-resolve fe files disk path e) ∙ h in
          let differ : (path === rel) ≡ false = ground (arith, ===_iff path rel, e, other) in
          get-preallocate files (allocated_next fe path disk) next rel h' apart
          ∙ put_elsewhere path rel fe disk differ
    ]

-- What Preallocate leaves, when it succeeds for files of different paths: every file has its path accepted and its size on the disk, as WritePiece needs it.
pub preallocate-IsAllocated :
    (files : List FileEntry) (disk next : Dict Bytes)
    → AllApart files
    → preallocate files disk ≡ some next
    → IsAllocated (λ path. false) next files
preallocate-IsAllocated [] disk next apart h = tt
preallocate-IsAllocated (fe ∷ files) disk next (here, apart) h =
    elim (Option-cases (resolve fe.path)) [
      | inl e ↦ absurd (preallocate-refused fe files disk next e h)
      | inr (path, e) ↦
          let h' = sym (preallocate-resolve fe files disk path e) ∙ h in
          let content = truncate fe.size (or_empty (Dict.get path disk)) in
          let alone : IsApart path files = subst (λ found. IsApartFrom found files) e here in
          let there : Dict.get path next ≡ some content =
            get-preallocate files (allocated_next fe path disk) next path h' alone
            ∙ put_here path fe disk in
          (
            (
              path,
              record {
                content = content;
                resolved = e;
                writable = refl;
                stored = there;
                sized = length-truncate fe.size (or_empty (Dict.get path disk));
              },
              alone,
            ),
            preallocate-IsAllocated files (allocated_next fe path disk) next apart h',
          )
    ]
