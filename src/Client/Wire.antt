-- ===== src/Client/Wire.antt =====
-- internal/client/wire.go: the framing of peer messages. A reader is the bytes that are left to read;
-- a read beyond them fails, as io.ReadFull does at the end of the stream.
pub mod RoundTrip
pub mod Stream
mod Tests
use weightless.Prelude.{
  ℕ, zero, suc, ◌+◌, ◌-◌, ◌*◌, ◌/◌, ◌%◌, ◌^◌, Option, none, some, List, [], ◌∷◌, ◌++◌, Bytes, leb,
  ltb, ◌==◌, if◌then◌else◌, length, take, drop,
}

pub record Message : Type 0 where
  pub id : ℕ
  pub payload : Bytes

-- What ReadMessage returns, with what is left to read. `closed` is the end of the stream.
pub data Read : Type 0 where
  closed too_large : Read
  keep_alive : Bytes → Read
  message : Message → Bytes → Read

abbrev pub max_payload : ℕ
max_payload = 2097152

abbrev pub be32 : ℕ → ℕ → ℕ → ℕ → ℕ
be32 a b c d = ((a * 256 + b) * 256 + c) * 256 + d

-- PutUint32
abbrev pub put_be32 : ℕ → Bytes
put_be32 n = (n / 16777216) % 256 ∷ (n / 65536) % 256 ∷ (n / 256) % 256 ∷ n % 256 ∷ []

abbrev pub read_payload : ℕ → ℕ → Bytes → Read
read_payload id payload_len r =
    if payload_len == 0
    then message (record { id = id; payload = [] }) r
    else if ltb max_payload payload_len
    then too_large
    else if leb payload_len (length r)
    then message (record { id = id; payload = take payload_len r }) (drop payload_len r)
    else closed

abbrev pub read_id : ℕ → Bytes → Read
read_id len [] = closed
read_id len (id ∷ r) = read_payload id (len - 1) r

abbrev pub read_body : ℕ → Bytes → Read
read_body len r = if len == 0 then keep_alive r else read_id len r

pub read_message : Bytes → Read
read_message (a ∷ b ∷ c ∷ d ∷ r) = read_body (be32 a b c d) r
read_message r = closed

-- The buffer has 4 + length bytes in uint32; what the payload has beyond it is not copied. `none`
-- is the panic of a buffer without room for the id.
abbrev pub framed : Message → ℕ → ℕ → Option Bytes
framed m len size =
    if ltb size 5 then none else some (put_be32 len ++ m.id ∷ take (size - 5) m.payload)

-- No message is a keep-alive.
pub write_message : Option Message → Option Bytes
write_message none = some (0 ∷ 0 ∷ 0 ∷ 0 ∷ [])
write_message (some m) =
    let len = (1 + length m.payload) % 2 ^ 32 in framed m len ((4 + len) % 2 ^ 32)

abbrev pub msg_request : ℕ
msg_request = 6

pub format_request : ℕ → ℕ → ℕ → Message
format_request index begin len = record {
  id = msg_request;
  payload = put_be32 index ++ put_be32 begin ++ put_be32 len;
}
