-- ===== src/Client/Wire/RoundTrip.antt =====
-- A message that is written is read back, and the reader stands behind it.
use weightless.Prelude.{
  ℕ, ◌+◌, ◌-◌, ◌/◌, ◌%◌, ◌^◌, ◌<◌, ◌≤◌, ◌≡◌, refl, sym, ap, ◌∙◌, true, false, Option, none, some,
  List, [], ◌∷◌, ◌++◌, Bytes, leb, ltb, ◌==◌, length, take, drop, arith, take_append, drop_append,
  length-append, append-nil,
}
use weightless.Client.Wire.{
  Message, Read, keep_alive, message, max_payload, be32, put_be32, read_payload, read_message,
  write_message,
}

be32-put_be32 :
    (n : ℕ)
    → n < 2 ^ 32
    → be32 ((n / 16777216) % 256) ((n / 65536) % 256) ((n / 256) % 256) (n % 256) ≡ n
be32-put_be32 n h = omega (arith, h)

take_all {ℓ} : {A : Type ℓ} (n : ℕ) (xs : List A) → n ≡ length xs → take n xs ≡ xs
take_all n xs h =
    ap (λ k. take k xs) h ∙ ap (take (length xs)) (sym (append-nil xs)) ∙ take_append xs []

-- The frame of a message that fits the uint32 arithmetic.
abbrev pub frame : Message → Bytes
frame m = put_be32 (1 + length m.payload) ++ m.id ∷ m.payload

pub write_message-frame :
    (m : Message) → length m.payload < 2 ^ 32 - 5 → write_message (some m) ≡ some (frame m)
unfolding write_message
write_message-frame m h =
    let len : (1 + length m.payload) % 2 ^ 32 ≡ 1 + length m.payload = omega (arith, h) in
    let size : (4 + (1 + length m.payload)) % 2 ^ 32 ≡ 5 + length m.payload = omega (arith, h) in
    let big : ltb (5 + length m.payload) 5 ≡ false = ground arith in
    let whole = take_all ((5 + length m.payload) - 5) m.payload (omega arith) in
    rw (len, size, big, whole) refl

read_payload-frame :
    (id : ℕ) (payload rest : Bytes) (n : ℕ)
    → n ≡ length payload
    → n ≤ max_payload
    → read_payload id n (payload ++ rest) ≡ message (record { id = id; payload = payload }) rest
read_payload-frame id [] rest n e h = rw e refl
read_payload-frame id (c ∷ payload) rest n e h =
    let some_payload : (n == 0) ≡ false = ground arith in
    let small : ltb max_payload n ≡ false = ground arith in
    let there : leb n (length ((c ∷ payload) ++ rest)) ≡ true =
      ground (arith, length-append (c ∷ payload) rest) in
    let taken : take n ((c ∷ payload) ++ rest) ≡ c ∷ payload =
      ap (λ k. take k ((c ∷ payload) ++ rest)) e ∙ take_append (c ∷ payload) rest in
    let left : drop n ((c ∷ payload) ++ rest) ≡ rest =
      ap (λ k. drop k ((c ∷ payload) ++ rest)) e ∙ drop_append (c ∷ payload) rest in
    rw (some_payload, small, there, taken, left) refl

pub read_message-frame :
    (m : Message) (rest : Bytes)
    → length m.payload ≤ max_payload
    → read_message (frame m ++ rest) ≡ message m rest
unfolding read_message
read_message-frame m rest h =
    let n = 1 + length m.payload in
    let whole = be32-put_be32 n (omega (arith, h)) in
    let some_body : (n == 0) ≡ false = ground arith in
    rw (whole, some_body)
      (read_payload-frame m.id m.payload rest (n - 1) (omega arith) (omega (arith, h)))

-- What a message, or none, is read as.
abbrev pub read_as : Option Message → Bytes → Read
read_as none rest = keep_alive rest
read_as (some m) rest = message m rest

abbrev pub IsSmall : Option Message → Type 0
IsSmall none = Unit
IsSmall (some m) = length m.payload ≤ max_payload

-- Every message of up to 2 MiB, and the keep-alive, is written, and what is written is read back from
-- a stream that goes on with anything, of which nothing more is taken.
pub read_message-write_message :
    (m : Option Message) (rest : Bytes)
    → IsSmall m
    → (written : Bytes) × (write_message m ≡ some written)
      × (read_message (written ++ rest) ≡ read_as m rest)
unfolding write_message
read_message-write_message none rest h = (_, refl, unfold read_message in refl)
read_message-write_message (some m) rest h =
    (frame m, write_message-frame m (omega (arith, h)), read_message-frame m rest h)
