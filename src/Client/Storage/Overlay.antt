-- ===== src/Client/Storage/Overlay.antt =====
-- Bytes laid over a content at an offset, byte by byte: what writing a piece is about.
use weightless.Prelude.{
  ℕ, zero, suc, ◌+◌, ◌-◌, ◌≤◌, ◌<◌, ◌≡◌, ◌⊎◌, refl, sym, ap, ◌∙◌, true, false, Option, none, some,
  [], ◌∷◌, ◌++◌, Bytes, ltb, if◌then◌else◌, length, take, take_all, drop, drop_nil, drop-drop,
  length-drop, length-take, take-append-drop, append-nil, append_assoc, get_elem?, arith,
  Bool-cases, inl, inr,
}
use weightless.Client.Storage.{span, write_at}

abbrev pub or_byte : Option ℕ → ℕ → ℕ
or_byte none b = b
or_byte (some c) b = c

-- The byte at position `at`, where the content has `b`
abbrev pub laid : ℕ → Bytes → ℕ → ℕ → ℕ
laid offset bytes at b = if ltb at offset then b else or_byte (get_elem? bytes (at - offset)) b

-- The content that begins at `current`
abbrev pub overlay : ℕ → Bytes → ℕ → Bytes → Bytes
overlay offset bytes current [] = []
overlay offset bytes current (b ∷ content) =
    laid offset bytes current b ∷ overlay offset bytes (suc current) content

pub overlay-append :
    (offset : ℕ) (bytes : Bytes) (current next : ℕ) (a b : Bytes)
    → current + length a ≡ next
    → overlay offset bytes current (a ++ b)
      ≡ overlay offset bytes current a ++ overlay offset bytes next b
overlay-append offset bytes current next [] b e =
    ap (λ c. overlay offset bytes c b) (omega (arith, e))
overlay-append offset bytes current next (x ∷ a) b e =
    ap (◌∷◌ (laid offset bytes current x))
      (overlay-append offset bytes (suc current) next a b (omega (arith, e)))

none_beyond : (bytes : Bytes) (i : ℕ) → length bytes ≤ i → get_elem? bytes i ≡ none
none_beyond [] i h = refl
none_beyond (c ∷ bytes) zero h = absurd (omega (arith, h))
none_beyond (c ∷ bytes) (suc i) h = none_beyond bytes i (omega (arith, h))

-- A content that ends before the bytes, or begins behind them, stays.
pub overlay_before :
    (offset : ℕ) (bytes : Bytes) (current : ℕ) (content : Bytes)
    → current + length content ≤ offset
    → overlay offset bytes current content ≡ content
overlay_before offset bytes current [] h = refl
overlay_before offset bytes current (b ∷ content) h =
    let front : ltb current offset ≡ true = ground arith in
    rw front (ap (◌∷◌ b) (overlay_before offset bytes (suc current) content (omega (arith, h))))

pub overlay_behind :
    (offset : ℕ) (bytes : Bytes) (current : ℕ) (content : Bytes)
    → offset + length bytes ≤ current
    → overlay offset bytes current content ≡ content
overlay_behind offset bytes current [] h = refl
overlay_behind offset bytes current (b ∷ content) h =
    let back : ltb current offset ≡ false = ground arith in
    rw (back, none_beyond bytes (current - offset) (omega (arith, h)))
      (ap (◌∷◌ b) (overlay_behind offset bytes (suc current) content (omega (arith, h))))

-- What stands before the content is not laid.
overlay_next :
    (offset c : ℕ) (bytes : Bytes) (current : ℕ) (content : Bytes)
    → offset < current
    → overlay offset (c ∷ bytes) current content ≡ overlay (suc offset) bytes current content
overlay_next offset c bytes current [] h = refl
overlay_next offset c bytes current (b ∷ content) h =
    let back : ltb current offset ≡ false = ground arith in
    let back' : ltb current (suc offset) ≡ false = ground arith in
    let next : current - offset ≡ suc (current - suc offset) = omega (arith, h) in
    rw (back, back', next)
      (ap (◌∷◌ (or_byte (get_elem? bytes (current - suc offset)) b))
        (overlay_next offset c bytes (suc current) content (omega (arith, h))))

overlay_skip :
    (n offset : ℕ) (bytes : Bytes) (current : ℕ) (content : Bytes)
    → offset + n ≡ current
    → overlay offset bytes current content ≡ overlay current (drop n bytes) current content
overlay_skip zero offset bytes current content e =
    ap (λ o. overlay o bytes current content) (omega (arith, e))
overlay_skip (suc n) offset [] current content e =
    overlay_behind offset [] current content (omega (arith, e))
    ∙ sym (overlay_behind current [] current content (omega arith))
overlay_skip (suc n) offset (c ∷ bytes) current content e =
    overlay_next offset c bytes current content (omega (arith, e))
    ∙ overlay_skip n (suc offset) bytes current content (omega (arith, e))

-- Bytes that begin where the content does
overlay_over :
    (offset : ℕ) (bytes : Bytes) (content : Bytes)
    → overlay offset bytes offset content
      ≡ take (length content) bytes ++ drop (length bytes) content
overlay_over offset bytes [] = sym (drop_nil (length bytes))
overlay_over offset [] (b ∷ content) = overlay_behind offset [] offset (b ∷ content) (omega arith)
overlay_over offset (c ∷ bytes) (b ∷ content) =
    let here : ltb offset offset ≡ false = ground arith in
    let first : offset - offset ≡ 0 = omega arith in
    rw (here, first)
      (ap (◌∷◌ c) (
        overlay_next offset c bytes (suc offset) content (omega arith)
        ∙ overlay_over (suc offset) bytes content))

drop_taken :
    (bytes content : Bytes)
    → drop (length (take (length content) bytes)) content ≡ drop (length bytes) content
drop_taken bytes [] = sym (drop_nil (length bytes))
drop_taken [] (b ∷ content) = refl
drop_taken (c ∷ bytes) (b ∷ content) = drop_taken bytes content

-- WriteAt of as many bytes as the content takes from there on
write_at-overlay :
    (current : ℕ) (at : ℕ) (bytes content : Bytes)
    → at ≤ length content
    → write_at at (take (length content - at) bytes) content
      ≡ overlay (current + at) bytes current content
write_at-overlay current at bytes content h =
    let no_gap : at - length content ≡ 0 = omega (arith, h) in
    let front = take at content in
    let back = drop at content in
    let size : length back ≡ length content - at = length-drop at content in
    let front_size : length front ≡ at = omega (arith, length-take at content, h) in
    let w = take (length content - at) bytes in
    let over : overlay (current + at) bytes (current + at) back
        ≡ w ++ drop (at + length w) content =
      overlay_over (current + at) bytes back
      ∙ ap (λ t. take (length back) bytes ++ t) (sym (drop_taken bytes back))
      ∙ ap (λ k. take k bytes ++ drop (length (take k bytes)) back) size
      ∙ ap (λ t. w ++ t) (drop-drop (length w) at content) in
    let whole : overlay (current + at) bytes current content
        ≡ front ++ (w ++ drop (at + length w) content) =
      ap (overlay (current + at) bytes current) (sym (take-append-drop at content))
      ∙ overlay-append (current + at) bytes current (current + at) front back
          (omega (arith, front_size))
      ∙ ap (λ t. t ++ overlay (current + at) bytes (current + at) back)
          (overlay_before (current + at) bytes current front (omega (arith, front_size)))
      ∙ ap (λ t. front ++ t) over in
    rw (no_gap, append-nil front) (append_assoc front w (drop (at + length w) content) ∙ sym whole)

take_capped :
    (n k : ℕ) (xs : Bytes) → (k ≡ n) ⊎ ((length xs ≤ k) × (length xs ≤ n)) → take k xs ≡ take n xs
take_capped n k xs h = elim h [
  | inl e ↦ ap (λ m. take m xs) e
  | inr p ↦ take_all k xs p.0 ∙ sym (take_all n xs p.1)
]

-- The span of a piece in a file that it meets: what the file takes of it from the offset on.
pub span_lem :
    (offset : ℕ) (bytes : Bytes) (current size : ℕ)
    → offset < current + size
    → current < offset + length bytes
    → ((span offset bytes current size).at ≡ offset - current)
      × ((span offset bytes current size).bytes
          ≡ take (size - (offset - current)) (drop (current - offset) bytes))
unfolding span
span_lem offset bytes current size h k =
    let at_eq : (if ltb current offset then offset - current else 0) ≡ offset - current =
      ground arith in
    let start_eq : (if ltb offset current then current - offset else 0) ≡ current - offset =
      ground arith in
    let start = current - offset in
    let rest = start + (size - (offset - current)) in
    let stop : ℕ = if ltb (length bytes) rest then length bytes else rest in
    let left = length-drop start bytes in
    rw (at_eq, start_eq)
      (
        refl,
        take_capped (size - (offset - current)) (stop - start) (drop start bytes)
            (elim (Bool-cases (ltb (length bytes) rest)) [
              | inl more ↦ inr (ground (arith, left))
              | inr fits ↦ inl (ground arith)
            ]),
      )

-- What the file holds when its span is written
pub write_at-span :
    (offset : ℕ) (bytes : Bytes) (current size : ℕ) (content : Bytes)
    → offset < current + size
    → current < offset + length bytes
    → length content ≡ size
    → write_at (span offset bytes current size).at (span offset bytes current size).bytes content
      ≡ overlay offset bytes current content
write_at-span offset bytes current size content h k e =
    let (at_eq, bytes_eq) = span_lem offset bytes current size h k in
    let at = offset - current in
    let cut = drop (current - offset) bytes in
    let inside : at ≤ length content = omega (arith, h, e) in
    let taken : take (size - at) cut ≡ take (length content - at) cut =
      ap (λ n. take (n - at) cut) (sym e) in
    rw (at_eq, bytes_eq, taken)
      (write_at-overlay current at cut content inside ∙ elim (Bool-cases (ltb offset current)) [
        | inl behind ↦
            let none_here : current + at ≡ current = ground arith in
            ap (λ o. overlay o cut current content) none_here
            ∙ sym (overlay_skip (current - offset) offset bytes current content (ground arith))
        | inr front ↦
            let there : current + at ≡ offset = ground arith in
            let nothing : current - offset ≡ 0 = ground arith in
            let all : cut ≡ bytes = ap (λ n. drop n bytes) nothing in
            ap (λ o. overlay o cut current content) there
            ∙ ap (λ b. overlay offset b current content) all
      ])
