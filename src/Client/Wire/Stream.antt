-- ===== src/Client/Wire/Stream.antt =====
-- What ReadMessage takes from a stream: the frame of the message it returns, and no more.
use weightless.Prelude.{
  ℕ, ◌+◌, ◌-◌, ◌/◌, ◌%◌, ◌≤◌, ◌≡◌, ◌↔◌, refl, sym, ap, ◌∙◌, [], ◌∷◌, ◌++◌, Bytes, leb, ltb, ◌==◌,
  length, arith, length-take, take-append-drop, Bool-cases, inl, inr, All, IsByte,
}
use weightless.Client.Wire.{
  Message, message, max_payload, be32, put_be32, read_payload, read_body, read_message,
}
use weightless.Client.Wire.RoundTrip.{frame, read_message-frame}

put_be32-be32 :
    (a b c d : ℕ)
    → IsByte a
    → IsByte b
    → IsByte c
    → IsByte d
    → put_be32 (be32 a b c d) ≡ a ∷ b ∷ c ∷ d ∷ []
put_be32-be32 a b c d ha hb hc hd =
    let n = be32 a b c d in
    let e1 : (n / 16777216) % 256 ≡ a = omega arith in
    let e2 : (n / 65536) % 256 ≡ b = omega arith in
    let e3 : (n / 256) % 256 ≡ c = omega arith in
    let e4 : n % 256 ≡ d = omega arith in rw (e1, e2, e3, e4) refl

message_of : {a b : Message} {r t : Bytes} → message a r ≡ message b t → a ≡ b
message_of h = cc

rest_of : {a b : Message} {r t : Bytes} → message a r ≡ message b t → r ≡ t
rest_of h = cc

message-injective :
    {a b : Message} {r t : Bytes}
    → message a r ≡ message b t
    → (b.id ≡ a.id) × (b.payload ≡ a.payload) × (t ≡ r)
message-injective h =
    let same : _ ≡ _ = message_of h in
    (ap (λ m. m.id) (sym same), ap (λ m. m.payload) (sym same), sym (rest_of h))

-- A read payload is as long as the prefix says, and is in front of what is left.
read_payload-message :
    (id n : ℕ) (r : Bytes) (m : Message) (rest : Bytes)
    → read_payload id n r ≡ message m rest
    → (m.id ≡ id) × (length m.payload ≡ n) × (n ≤ max_payload) × (r ≡ m.payload ++ rest)
read_payload-message id n r m rest = elim (Bool-cases (n == 0)) [
  | inl e ↦ rw e (λ h.
      let (same, nothing, left) = message-injective h in
      rw (same, nothing, left) (refl, ground arith, ground arith, refl))
  | inr e ↦ elim (Bool-cases (ltb max_payload n)) [
    | inl big ↦ rw (e, big) (λ h. absurd cc)
    | inr small ↦ elim (Bool-cases (leb n (length r))) [
      | inl there ↦
          rw (e, small, there)
            (λ h.
              let (same, taken, left) = message-injective h in
              rw (same, taken, left)
                (refl, ground (arith, length-take n r), ground arith, sym (take-append-drop n r)))
      | inr short ↦ rw (e, small, short) (λ h. absurd cc)
    ]
  ]
]

-- The frame that a body was read from, with the length prefix still a number.
read_body-message :
    (len : ℕ) (r : Bytes) (m : Message) (rest : Bytes)
    → read_body len r ≡ message m rest
    → (len ≡ 1 + length m.payload)
      × (length m.payload ≤ max_payload)
      × (r ≡ (m.id ∷ m.payload) ++ rest)
read_body-message len [] m rest = elim (Bool-cases (len == 0)) [
  | inl e ↦ rw e (λ h. absurd cc)
  | inr e ↦ rw e (λ h. absurd cc)
]
read_body-message len (id ∷ r) m rest = elim (Bool-cases (len == 0)) [
  | inl e ↦ rw e (λ h. absurd cc)
  | inr e ↦ rw e (λ h.
      let (same, size, small, whole) = read_payload-message id (len - 1) r m rest h in
      (ground arith, omega (arith, size, small), rw (same, whole) refl))
]

-- Four bytes of length and the body.
read_message-message :
    (r : Bytes) (m : Message) (rest : Bytes)
    → All IsByte r
    → read_message r ≡ message m rest
    → (r ≡ frame m ++ rest) × (length m.payload ≤ max_payload)
unfolding read_message
read_message-message [] m rest k h = absurd cc
read_message-message (a ∷ []) m rest k h = absurd cc
read_message-message (a ∷ b ∷ []) m rest k h = absurd cc
read_message-message (a ∷ b ∷ c ∷ []) m rest k h = absurd cc
read_message-message (a ∷ b ∷ c ∷ d ∷ r) m rest (ka, (kb, (kc, (kd, k)))) h =
    let (len, small, body) = read_body-message (be32 a b c d) r m rest h in
    let front : put_be32 (1 + length m.payload) ≡ a ∷ b ∷ c ∷ d ∷ [] =
      ap put_be32 (sym len) ∙ put_be32-be32 a b c d ka kb kc kd in
    (rw body (ap (λ p. p ++ (m.id ∷ m.payload) ++ rest) (sym front)), small)

-- From a stream of bytes ReadMessage returns a message exactly if the message's frame stands at its
-- front and the payload has 2 MiB at most, and it leaves what is behind the frame: no other
-- bytes are read as that message, and none of the following message is taken.
pub read_message_iff :
    (r : Bytes) (m : Message) (rest : Bytes)
    → All IsByte r
    → (read_message r ≡ message m rest) ↔ ((r ≡ frame m ++ rest) × (length m.payload ≤ max_payload))
read_message_iff r m rest k = (
  read_message-message r m rest k,
  λ (whole, small). ap read_message whole ∙ read_message-frame m rest small,
)
