-- ===== src/Client/Download/Safety.antt =====
-- What a downloaded piece is, and what is asked of the peer on the way.
use weightless.Prelude.{
  ℕ, ◌+◌, ◌%◌, ◌^◌, ◌≤◌, ◌<◌, ◌≡◌, Bool, true, false, not, ◌||◌, none, some, List, [], ◌∷◌, ◌++◌,
  Bytes, ltb, ◌==◌, ◌===◌, ===_iff, length, length-append, arith, Bool-cases, inl, inr,
}
use weightless.Client.Wire.{Message, be32}
use weightless.Client.Download.{
  Input, cancelled, read_failed, received, Download, Step, going, failed, request_next, take_block,
  on_piece, on_message, step, Result, piece, refused, waiting, after, verify, run_loop,
  download_piece, at_start,
}

-- The part that is filled never exceeds the piece.
abbrev IsIn : ℕ → Step → Type 0
IsIn size (going t) = length t.data_in ≤ size
IsIn size (failed e) = Unit

request_next-IsIn :
    (index size : ℕ) (written : Bool) (s : Download)
    → length s.data_in ≤ size
    → IsIn size (request_next index size written s)
request_next-IsIn index size true s h = h
request_next-IsIn index size false s h = tt

take_block-IsIn :
    (index size : ℕ) (written : Bool) (blk_index blk_begin : ℕ) (block : Bytes) (s : Download)
    → length s.data_in ≤ size
    → IsIn size (take_block index size written blk_index blk_begin block s)
take_block-IsIn index size written blk_index blk_begin block s h =
    let at = length s.data_in in
    let grown = length-append s.data_in block in
    elim (Bool-cases (not (blk_index == index % 2 ^ 32) || not (blk_begin == at % 2 ^ 32))) [
      | inl other ↦ rw other h
      | inr own ↦ elim (Bool-cases (ltb size (at + length block))) [
        | inl big ↦ rw (own, big) tt
        | inr fits ↦
            let inside : length (s.data_in ++ block) ≤ size = ground (arith, grown) in
            elim (Bool-cases (ltb (at + length block) size)) [
              | inl more ↦
                  rw (own, fits, more)
                    (request_next-IsIn index size written
                      (record s { data_in = s.data_in ++ block }) inside)
              | inr last ↦ rw (own, fits, last) inside
            ]
      ]
    ]

on_piece-IsIn :
    (index size : ℕ) (written : Bool) (payload : Bytes) (s : Download)
    → length s.data_in ≤ size
    → IsIn size (on_piece index size written payload s)
on_piece-IsIn index size written (a ∷ b ∷ c ∷ d ∷ e ∷ f ∷ g ∷ h ∷ block) s k =
    take_block-IsIn index size written (be32 a b c d) (be32 e f g h) block s k
on_piece-IsIn index size written [] s k = k
on_piece-IsIn index size written (a ∷ []) s k = k
on_piece-IsIn index size written (a ∷ b ∷ []) s k = k
on_piece-IsIn index size written (a ∷ b ∷ c ∷ []) s k = k
on_piece-IsIn index size written (a ∷ b ∷ c ∷ d ∷ []) s k = k
on_piece-IsIn index size written (a ∷ b ∷ c ∷ d ∷ e ∷ []) s k = k
on_piece-IsIn index size written (a ∷ b ∷ c ∷ d ∷ e ∷ f ∷ []) s k = k
on_piece-IsIn index size written (a ∷ b ∷ c ∷ d ∷ e ∷ f ∷ g ∷ []) s k = k

on_message-IsIn :
    (index size : ℕ) (written : Bool) (m : Message) (s : Download)
    → length s.data_in ≤ size
    → IsIn size (on_message index size written m s)
unfolding on_message
on_message-IsIn index size written m s h = elim (Bool-cases (m.id == 1)) [
  | inl unchoke ↦ rw unchoke (elim (Bool-cases (length s.data_in == 0)) [
    | inl first ↦ rw first (request_next-IsIn index size written (record s { choking = false }) h)
    | inr later ↦ rw later h
  ])
  | inr not_unchoke ↦ elim (Bool-cases (m.id == 0)) [
    | inl choke ↦ rw (not_unchoke, choke) tt
    | inr not_choke ↦ elim (Bool-cases (m.id == 7)) [
      | inl block ↦
          rw (not_unchoke, not_choke, block) (on_piece-IsIn index size written m.payload s h)
      | inr other ↦ rw (not_unchoke, not_choke, other) h
    ]
  ]
]

step-IsIn :
    (index size : ℕ) (i : Input) (written : Bool) (s : Download)
    → length s.data_in ≤ size
    → IsIn size (step index size i written s)
unfolding step
step-IsIn index size cancelled written s h = tt
step-IsIn index size read_failed written s h = tt
step-IsIn index size (received none) written s h = h
step-IsIn index size (received (some m)) written s h = on_message-IsIn index size written m s h

-- What a result promises
abbrev pub IsVerified : (Bytes → Bytes) → ℕ → Bytes → Result → Type 0
IsVerified sha1 size expected (piece data_in) = (length data_in ≡ size) × (sha1 data_in ≡ expected)
IsVerified sha1 size expected (refused e) = Unit
IsVerified sha1 size expected (waiting s) = length s.data_in < size

verify-IsVerified :
    (sha1 : Bytes → Bytes) (size : ℕ) (expected data_in : Bytes)
    → length data_in ≡ size
    → IsVerified sha1 size expected (verify sha1 expected data_in)
verify-IsVerified sha1 size expected data_in h = elim (Bool-cases (sha1 data_in === expected)) [
  | inl same ↦ rw same (h, (===_iff _ _).0 same)
  | inr other ↦ rw other tt
]

after-IsVerified :
    (sha1 : Bytes → Bytes) (size : ℕ) (expected : Bytes) (r : Step) (k : Download → Result)
    → IsIn size r
    → ((t : Download) → length t.data_in ≤ size → IsVerified sha1 size expected (k t))
    → IsVerified sha1 size expected (after r k)
after-IsVerified sha1 size expected (going t) k h next = next t h
after-IsVerified sha1 size expected (failed e) k h next = tt

run_loop-IsVerified :
    (sha1 : Bytes → Bytes) (index size : ℕ) (expected : Bytes) (inputs : List (Input × Bool))
    (s : Download)
    → length s.data_in ≤ size
    → IsVerified sha1 size expected (run_loop sha1 index size expected inputs s)
unfolding run_loop
run_loop-IsVerified sha1 index size expected [] s h =
    elim (Bool-cases (ltb (length s.data_in) size)) [
      | inl more ↦ rw more (ground arith)
      | inr full ↦ rw full (verify-IsVerified sha1 size expected s.data_in (ground arith))
    ]
run_loop-IsVerified sha1 index size expected ((i, written) ∷ inputs) s h =
    elim (Bool-cases (ltb (length s.data_in) size)) [
      | inl more ↦ rw more (
          after-IsVerified sha1 size expected (step index size i written s)
            (run_loop sha1 index size expected inputs) (step-IsIn index size i written s h)
            (λ t k. run_loop-IsVerified sha1 index size expected inputs t k))
      | inr full ↦ rw full (verify-IsVerified sha1 size expected s.data_in (ground arith))
    ]

-- Whatever the peer sends, in whatever order, and wherever the connection fails: a piece that is
-- returned has exactly the piece's size and the expected hash, and a run that still waits lacks bytes.
pub download_piece-IsVerified :
    (sha1 : Bytes → Bytes) (index size : ℕ) (expected : Bytes) (choking written : Bool)
    (inputs : List (Input × Bool))
    → IsVerified sha1 size expected (download_piece sha1 index size expected choking written inputs)
unfolding download_piece
download_piece-IsVerified sha1 index size expected choking written inputs =
    after-IsVerified sha1 size expected (at_start index size choking written)
      (run_loop sha1 index size expected inputs) (at_start-IsIn choking written)
      (λ t k. run_loop-IsVerified sha1 index size expected inputs t k)
  where
    at_start-IsIn : (choking written : Bool) → IsIn size (at_start index size choking written)
    at_start-IsIn true written = omega arith
    at_start-IsIn false true = omega arith
    at_start-IsIn false false = tt
