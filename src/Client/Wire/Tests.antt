-- ===== src/Client/Wire/Tests.antt =====
-- Runs of the framing.
use weightless.Prelude.{
  ◌≤◌, ◌≡◌, ◌↔◌, refl, some, [], ◌∷◌, ◌++◌, Bytes, codes, length, All, IsByte, arith,
}
use weightless.Client.Wire.{
  Message, message, too_large, max_payload, read_message, write_message, format_request,
}
use weightless.Client.Wire.RoundTrip.{frame, read_as, read_message-write_message}
use weightless.Client.Wire.Stream.{read_message_iff}

abbrev have : Message
have = record { id = 4; payload = 0 ∷ 0 ∷ 1 ∷ 7 ∷ [] }

abbrev stream : Bytes
stream = 0 ∷ 0 ∷ 0 ∷ 5 ∷ 4 ∷ 0 ∷ 0 ∷ 1 ∷ 7 ∷ 0 ∷ 0 ∷ []

stream-IsByte : All IsByte stream
stream-IsByte = search (arith)

too_large_refused : read_message (0 ∷ 32 ∷ 0 ∷ 2 ∷ 7 ∷ []) ≡ too_large
unfolding read_message
too_large_refused = refl

request_written :
    write_message (some (format_request 1 16384 512))
    ≡ some (0 ∷ 0 ∷ 0 ∷ 13 ∷ 6 ∷ 0 ∷ 0 ∷ 0 ∷ 1 ∷ 0 ∷ 0 ∷ 64 ∷ 0 ∷ 0 ∷ 0 ∷ 2 ∷ 0 ∷ [])
unfolding write_message format_request
request_written = refl

read_message-write_message_example :
    (written : Bytes) × (write_message (some have) ≡ some written)
    × (read_message (written ++ codes "next") ≡ read_as (some have) (codes "next"))
read_message-write_message_example =
    read_message-write_message (some have) (codes "next") (omega arith)

read_message_iff_example :
    (read_message stream ≡ message have (0 ∷ 0 ∷ []))
    ↔ ((stream ≡ frame have ++ 0 ∷ 0 ∷ []) × (length have.payload ≤ max_payload))
read_message_iff_example = read_message_iff stream have (0 ∷ 0 ∷ []) stream-IsByte
