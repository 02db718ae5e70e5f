-- ===== src/Client/Download.antt =====
-- downloadPiece and blockSize of internal/client/downloader.go. What the connection delivers is a list of
-- inputs, each with the outcome of the write that the step may make. The buffer is held as its
-- part that is filled, which the copies extend at the end. Peers that are learnt from ut_pex messages
-- are not part of the state, and SHA-1 is a parameter.
pub mod Safety
mod Tests
use weightless.Prelude.{
  ℕ, ◌+◌, ◌-◌, ◌%◌, ◌^◌, Bool, true, false, not, ◌||◌, Option, none, some, List, [], ◌∷◌, ◌++◌,
  Bytes, ltb, ◌==◌, ◌===◌, if◌then◌else◌, length,
}
use weightless.Client.Wire.{Message, be32, format_request}

abbrev pub standard_block : ℕ
standard_block = 16384

abbrev pub block_size : ℕ → ℕ → ℕ
block_size piece_size downloaded =
    if ltb standard_block (piece_size - downloaded) then standard_block else piece_size - downloaded

pub data Input : Type 0 where
  cancelled read_failed : Input
  received : Option Message → Input

pub data Failure : Type 0 where
  stopped write_failed choked block_too_large hash_mismatch : Failure

pub record Download : Type 0 where
  pub data_in : Bytes
  pub choking : Bool
  pub sent : List Message

pub data Step : Type 0 where
  going : Download → Step
  failed : Failure → Step

-- The request for the next block.
abbrev pub request_next : ℕ → ℕ → Bool → Download → Step
request_next index size written s =
    let at = length s.data_in in
    if written
    then going (record s {
      sent =
          s.sent
          ++ format_request (index % 2 ^ 32) (at % 2 ^ 32) (block_size size at % 2 ^ 32) ∷ [];
    })
    else failed write_failed

-- A block that is not the next one is passed over.
abbrev pub take_block : ℕ → ℕ → Bool → ℕ → ℕ → Bytes → Download → Step
take_block index size written blk_index blk_begin block s =
    let at = length s.data_in in
    let filled = record s { data_in = s.data_in ++ block } in
    if not (blk_index == index % 2 ^ 32) || not (blk_begin == at % 2 ^ 32)
    then going s
    else if ltb size (at + length block)
    then failed block_too_large
    else if ltb (at + length block) size
    then request_next index size written filled
    else going filled

abbrev pub on_piece : ℕ → ℕ → Bool → Bytes → Download → Step
on_piece index size written (a ∷ b ∷ c ∷ d ∷ e ∷ f ∷ g ∷ h ∷ block) s =
    take_block index size written (be32 a b c d) (be32 e f g h) block s
on_piece index size written payload s = going s

pub on_message : ℕ → ℕ → Bool → Message → Download → Step
on_message index size written m s =
    let unchoked = record s { choking = false } in
    if m.id == 1
    then (if length s.data_in == 0
        then request_next index size written unchoked
        else going unchoked)
    else if m.id == 0
    then failed choked
    else if m.id == 7
    then on_piece index size written m.payload s
    else going s

pub step : ℕ → ℕ → Input → Bool → Download → Step
unfolding on_message
step index size cancelled written s = failed stopped
step index size read_failed written s = failed stopped
step index size (received none) written s = going s
step index size (received (some m)) written s = on_message index size written m s

-- What downloadPiece returns; `waiting` is a run whose inputs are used up.
pub data Result : Type 0 where
  piece : Bytes → Result
  refused : Failure → Result
  waiting : Download → Result

abbrev pub after : Step → (Download → Result) → Result
after (failed e) k = refused e
after (going t) k = k t

-- An unchoked connection asks for the first block at once.
abbrev pub at_start : ℕ → ℕ → Bool → Bool → Step
at_start index size choking written =
    let s : Download = record { data_in = []; choking = choking; sent = [] } in
    if choking then going s else request_next index size written s

module _ (sha1 : Bytes → Bytes) where
  abbrev pub verify : Bytes → Bytes → Result
  verify expected data_in =
      if sha1 data_in === expected then piece data_in else refused hash_mismatch

  pub run_loop : ℕ → ℕ → Bytes → List (Input × Bool) → Download → Result
  unfolding step
  run_loop index size expected [] s =
      if ltb (length s.data_in) size then waiting s else verify expected s.data_in
  run_loop index size expected ((i, written) ∷ inputs) s =
      let next = after (step index size i written s) (run_loop index size expected inputs) in
      if ltb (length s.data_in) size then next else verify expected s.data_in

  pub download_piece : ℕ → ℕ → Bytes → Bool → Bool → List (Input × Bool) → Result
  unfolding run_loop
  download_piece index size expected choking written inputs =
      after (at_start index size choking written) (run_loop index size expected inputs)
