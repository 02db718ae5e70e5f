-- ===== src/Bencode/Tokens.antt =====
-- Integers and byte strings: what the two token parsers accept, and that they read back what the
-- grammar writes.
use weightless.Prelude.{
  ℕ, suc, ◌+◌, ◌-◌, ◌*◌, ◌≤◌, ◌<◌, ◌≡◌, ◌⊎◌, refl, sym, ap, ◌∙◌, Bool, true, false, [], ◌∷◌, ◌++◌,
  Bytes, arith, All, length, ltb, ◌==◌, inl, inr, Bool-cases, take_append, drop_append,
  take-append-drop, length-take, length-append, ◌&&◌,
}
use weightless.Prelude.Decimal.{
  is_digit, IsDigit, IsCanonical, value, decimal, decimal-value, value-decimal, decimal-IsDigit,
  decimal-IsCanonical, le-value,
}
use weightless.Bencode.{
  Limits, ok, Error, integer_syntax, digits_of, after_digits, leading_zero, starts_with_zero,
  is_empty, expect, integer_digits, integer_signed, integer, length_guard, parse_length, content,
  counted, byte_string,
}
use weightless.Bencode.Syntax.{write_text, WithinCap, FitsText}

pub digits_of-append-after_digits : (s : Bytes) → digits_of s ++ after_digits s ≡ s
unfolding digits_of after_digits
digits_of-append-after_digits [] = refl
digits_of-append-after_digits (c ∷ s) = ground (arith, digits_of-append-after_digits s)

pub digits_of-IsDigit : (s : Bytes) → All IsDigit (digits_of s)
unfolding digits_of
digits_of-IsDigit [] = tt
digits_of-IsDigit (c ∷ s) = ground (arith, digits_of-IsDigit s)

module _ (c : ℕ) (rest : Bytes) (stop : is_digit c ≡ false) where
  pub digits_of-append : (ds : Bytes) → All IsDigit ds → digits_of (ds ++ c ∷ rest) ≡ ds
  unfolding digits_of
  digits_of-append [] h = ground arith
  digits_of-append (d ∷ ds) h = ground (arith, h.0, digits_of-append ds h.1)

  pub after_digits-append : (ds : Bytes) → All IsDigit ds → after_digits (ds ++ c ∷ rest) ≡ c ∷ rest
  unfolding after_digits
  after_digits-append [] h = ground arith
  after_digits-append (d ∷ ds) h = ground (arith, h.0, after_digits-append ds h.1)

pub expect_sound :
    (want : ℕ) (e : Error) (s : Bytes) {r : Bytes} → expect want e s ≡ ok r → s ≡ want ∷ r
expect_sound want e [] h = cc
expect_sound want e (c ∷ s) h = ground arith

-- The tests of both parsers say that the digits are canonical.
IsCanonical-of_tests :
    (ds : Bytes) → All IsDigit ds → is_empty ds ≡ false → leading_zero ds ≡ false → IsCanonical ds
IsCanonical-of_tests [] h e z = cc
IsCanonical-of_tests (c ∷ []) h e z = h.0
IsCanonical-of_tests (c ∷ d ∷ s) h e z = (ground arith, h.0, h.1)

tests_of_IsCanonical :
    (ds : Bytes) → IsCanonical ds → (is_empty ds ≡ false) × (leading_zero ds ≡ false)
tests_of_IsCanonical [] h = absurd h
tests_of_IsCanonical (c ∷ []) h = (refl, refl)
tests_of_IsCanonical (c ∷ d ∷ s) h = (refl, ground (arith, h.0))

value-pos :
    (ds : Bytes)
    → All IsDigit ds
    → is_empty ds ≡ false
    → starts_with_zero ds ≡ false
    → 0 < value 0 ds
value-pos [] h e z = cc
value-pos (c ∷ s) h e z = ground (arith, h.0, le-value s (0 * 10 + (c - b'0')))

starts_with_zero-decimal : (n : ℕ) → starts_with_zero (decimal (suc n)) ≡ false
starts_with_zero-decimal n =
    go (decimal (suc n)) (decimal-IsCanonical (suc n)) (value-decimal (suc n))
  where
    go : (ds : Bytes) → IsCanonical ds → value 0 ds ≡ suc n → starts_with_zero ds ≡ false
    go [] h e = absurd h
    go (c ∷ []) h e = ground (arith, h)
    go (c ∷ d ∷ s) h e = ground (arith, h.0)

-- What the digit part accepts.
integer_digits_sound :
    (negative : Bool) (s : Bytes) {r : Bytes}
    → integer_digits negative s ≡ ok r
    → (n : ℕ) × (s ≡ decimal n ++ b'e' ∷ r) × (negative ≡ true → 0 < n)
unfolding integer_digits
integer_digits_sound negative s {r} h = (
  value 0 (digits_of s),
  sym (digits_of-append-after_digits s)
      ∙ ap (λ t. digits_of s ++ t)
          (expect_sound b'e' integer_syntax (after_digits s) (ground arith))
      ∙ ap (λ t. t ++ b'e' ∷ r)
          (sym (
            decimal-value (digits_of s) (
              IsCanonical-of_tests (digits_of s) (digits_of-IsDigit s) (ground arith)
                (ground arith)))),
  λ neg. value-pos (digits_of s) (digits_of-IsDigit s) (ground arith) (ground arith),
)

-- An integer's text behind the `i`, then `r`.
abbrev pub AfterSign : Bytes → Bytes → Type 0
AfterSign s r =
    ((n : ℕ) × (s ≡ decimal n ++ b'e' ∷ r)) ⊎ ((n : ℕ) × (s ≡ b'-' ∷ (decimal (suc n) ++ b'e' ∷ r)))

integer_signed_sound :
    (s : Bytes) {r : Bytes}
    → integer_digits true s ≡ ok r
    → (n : ℕ) × (s ≡ decimal (suc n) ++ b'e' ∷ r)
integer_signed_sound s {r} h =
    let (n, spelled, positive) = integer_digits_sound true s {r = r} h in
    let e : suc (n - 1) ≡ n = omega (arith, positive refl) in (n - 1, rw e spelled)

-- What follows the `i` is the rest of an integer's canonical text.
pub integer_sound : (s : Bytes) {r : Bytes} → integer s ≡ ok r → AfterSign s r
unfolding integer
integer_sound [] h = cc
integer_sound (c ∷ []) {r} h =
    let p = integer_digits_sound false (c ∷ []) {r = r} (ground arith) in inl (p.0, p.1)
integer_sound (c ∷ d ∷ s) {r} h = elim (Bool-cases (c == b'-')) [
  | inl minus ↦
      let p = integer_signed_sound (d ∷ s) {r = r} (ground arith) in
      let e : c ≡ b'-' = ground arith in inr (p.0, ap (λ x. x ∷ d ∷ s) e ∙ ap (◌∷◌ b'-') p.1)
  | inr plain ↦
      let p = integer_digits_sound false (c ∷ d ∷ s) {r = r} (ground arith) in inl (p.0, p.1)
]

integer_digits-decimal :
    (negative : Bool) (n : ℕ) (r : Bytes)
    → (negative && starts_with_zero (decimal n)) ≡ false
    → integer_digits negative (decimal n ++ b'e' ∷ r) ≡ ok r
unfolding integer_digits
integer_digits-decimal negative n r h =
    let (full, plain) = tests_of_IsCanonical (decimal n) (decimal-IsCanonical n) in
    rw (
      digits_of-append b'e' r refl (decimal n) (decimal-IsDigit n),
      after_digits-append b'e' r refl (decimal n) (decimal-IsDigit n),
      full,
      plain,
      h,
    )

pub integer-neg : (n : ℕ) (r : Bytes) → integer (b'-' ∷ (decimal (suc n) ++ b'e' ∷ r)) ≡ ok r
unfolding integer
integer-neg n r =
    signed (decimal (suc n)) (decimal-IsCanonical (suc n))
      (integer_digits-decimal true (suc n) r (starts_with_zero-decimal n))
  where
    signed :
        (ds : Bytes)
        → IsCanonical ds
        → integer_digits true (ds ++ b'e' ∷ r) ≡ ok r
        → integer_signed (ds ++ b'e' ∷ r) ≡ ok r
    signed [] h e = absurd h
    signed (c ∷ ds) h e = e

pub integer-pos : (n : ℕ) (r : Bytes) → integer (decimal n ++ b'e' ∷ r) ≡ ok r
unfolding integer
integer-pos n r =
    plain (decimal n) (decimal-IsCanonical n) (decimal-IsDigit n)
      (integer_digits-decimal false n r refl)
  where
    plain :
        (ds : Bytes)
        → IsCanonical ds
        → All IsDigit ds
        → integer_digits false (ds ++ b'e' ∷ r) ≡ ok r
        → integer (ds ++ b'e' ∷ r) ≡ ok r
    plain [] h d e = absurd h
    plain (c ∷ ds) h d e = ground (arith, d.0)

parse_length_sound :
    (ds : Bytes) (acc : ℕ) {n : ℕ}
    → All IsDigit ds
    → acc ≤ length_guard * 10 + 9
    → parse_length acc ds ≡ ok n
    → (n ≡ value acc ds) × (n ≤ length_guard * 10 + 9)
unfolding parse_length
parse_length_sound [] acc d a h = ground arith
parse_length_sound (c ∷ ds) acc {n} d a h =
    ground (arith, d.0, parse_length_sound ds (acc * 10 + (c - b'0')) {n = n} d.1)

parse_length_complete :
    (ds : Bytes) (acc : ℕ)
    → All IsDigit ds
    → value acc ds ≤ length_guard * 10 + 9
    → parse_length acc ds ≡ ok (value acc ds)
unfolding parse_length
parse_length_complete [] acc d h = refl
parse_length_complete (c ∷ ds) acc d h = ground (
  arith,
  d.0,
  le-value ds (acc * 10 + (c - b'0')),
  parse_length_complete ds (acc * 10 + (c - b'0')) d.1,
)

content_sound :
    (n : ℕ) (s : Bytes) {t r : Bytes} → content n s ≡ ok (t, r) → (s ≡ t ++ r) × (length t ≡ n)
content_sound n s {t} {r} h = ground (arith, take-append-drop n s, length-take n s)

content-append : (t r : Bytes) → content (length t) (t ++ r) ≡ ok (t, r)
content-append t r =
    let fits : ltb (length (t ++ r)) (length t) ≡ false = ground (arith, length-append t r) in
    rw (fits, take_append, drop_append)

counted_sound :
    (lim : Limits) (s : Bytes) (n : ℕ) {t r : Bytes}
    → counted lim s n ≡ ok (t, r)
    → (s ≡ b':' ∷ (t ++ r)) × (length t ≡ n) × WithinCap lim.max_str_len n
unfolding counted
counted_sound lim [] n h = ground arith
counted_sound lim (c ∷ s) n {t} {r} h = ground (arith, content_sound n s {t = t} {r = r})

counted_complete :
    (lim : Limits) (t r : Bytes)
    → WithinCap lim.max_str_len (length t)
    → counted lim (b':' ∷ (t ++ r)) (length t) ≡ ok (t, r)
unfolding counted
counted_complete lim t r h = ground (arith, content-append t r)

-- What a successful run of `byte_string` went through.
byte_string_steps :
    (lim : Limits) (s : Bytes) {t r : Bytes}
    → byte_string lim s ≡ ok (t, r)
    → (is_empty (digits_of s) ≡ false)
      × (leading_zero (digits_of s) ≡ false)
      × ((n : ℕ) × (parse_length 0 (digits_of s) ≡ ok n)
          × (counted lim (after_digits s) n ≡ ok (t, r)))
unfolding byte_string
byte_string_steps lim s h = ground arith

-- An accepted byte string is the canonical text of its content, within the limits.
pub byte_string_sound :
    (lim : Limits) (s : Bytes) {t r : Bytes}
    → byte_string lim s ≡ ok (t, r)
    → (s ≡ write_text t r) × FitsText lim t
byte_string_sound lim s {t} {r} h =
    let (full, plain, (n, length_ok, rest_ok)) = byte_string_steps lim s h in
    let d = digits_of-IsDigit s in
    let (exact, small) = parse_length_sound (digits_of s) 0 {n = n} d (omega arith) length_ok in
    let (spelled, size, capped) = counted_sound lim (after_digits s) n {t = t} {r = r} rest_ok in
    let printed : decimal (length t) ≡ digits_of s =
      ap decimal (size ∙ exact)
      ∙ decimal-value (digits_of s) (IsCanonical-of_tests (digits_of s) d full plain) in
    (
      sym (digits_of-append-after_digits s)
          ∙ ap (λ u. digits_of s ++ u) spelled
          ∙ ap (λ u. u ++ b':' ∷ (t ++ r)) (sym printed),
      rw size (capped, small),
    )

pub byte_string-write :
    (lim : Limits) (t r : Bytes) → FitsText lim t → byte_string lim (write_text t r) ≡ ok (t, r)
unfolding byte_string
byte_string-write lim t r h =
    let ds = decimal (length t) in
    let d = decimal-IsDigit (length t) in
    let (full, plain) = tests_of_IsCanonical ds (decimal-IsCanonical (length t)) in
    let size = value-decimal (length t) in
    let counts : parse_length 0 ds ≡ ok (length t) =
      parse_length_complete ds 0 d (omega (arith, size, h.1)) ∙ ap ok size in
    rw
      (
        digits_of-append b':' (t ++ r) refl ds d,
        after_digits-append b':' (t ++ r) refl ds d,
        full,
        plain,
        counts,
      )
      (counted_complete lim t r h.0)
