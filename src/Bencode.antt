-- ===== src/Bencode.antt =====
-- internal/bencode/validate.go: the structural validator. The parser's `data[pos:]` is the list of
-- bytes that are left; the offsets in the error messages are not kept. `value`, `list` and `dict`
-- take fuel, one unit for each call and each round of a loop.
mod Syntax
mod Tokens
pub mod Sound
pub mod Complete
pub mod Fuel
pub mod Recognizer
mod Tests
use weightless.Prelude.{
  ℕ, zero, suc, ◌+◌, ◌-◌, ◌*◌, ◌/◌, ◌^◌, ◌<◌, Bool, true, false, ◌&&◌, List, [], ◌∷◌, Bytes, ltb,
  leb, ◌==◌, if◌then◌else◌, length, take, drop,
}
use weightless.Prelude.Decimal.{is_digit}

pub record Limits : Type 0 where
  pub max_bytes : ℕ
  pub max_depth : ℕ
  pub max_str_len : ℕ
  pub max_list_len : ℕ
  pub max_keys_per_dict : ℕ

abbrev pub torrent_limits : Limits
torrent_limits = record {
  max_bytes = 16 * 2 ^ 20;
  max_depth = 64;
  max_str_len = 8 * 2 ^ 20;
  max_list_len = 2 ^ 17;
  max_keys_per_dict = 2 ^ 14;
}

abbrev pub peer_message_limits : Limits
peer_message_limits = record {
  max_bytes = 2 ^ 20;
  max_depth = 16;
  max_str_len = 256 * 2 ^ 10;
  max_list_len = 1024;
  max_keys_per_dict = 256;
}

abbrev pub tracker_response_limits : Limits
tracker_response_limits = record {
  max_bytes = 2 * 2 ^ 20;
  max_depth = 16;
  max_str_len = 2 ^ 20;
  max_list_len = 65536;
  max_keys_per_dict = 256;
}

pub data Error : Type 0 where
  too_large eof trailing_data syntax depth_exceeded string_too_long list_too_long dict_too_large :
      Error
  integer_syntax negative_length : Error

pub data Outcome {ℓ} (A : Type ℓ) : Type ℓ where
  ok : A → Outcome A
  err : Error → Outcome A
  out_of_fuel : Outcome A

infixl 5 ◌>>=◌
abbrev pub ◌>>=◌ {ℓ κ} : {A : Type ℓ} {B : Type κ} → Outcome A → (A → Outcome B) → Outcome B
ok a >>= f = f a
err e >>= f = err e
out_of_fuel >>= f = out_of_fuel

-- The digits at the front, and what follows them.
pub digits_of : Bytes → Bytes
digits_of [] = []
digits_of (c ∷ s) = let rest = digits_of s in if is_digit c then c ∷ rest else []

pub after_digits : Bytes → Bytes
after_digits [] = []
after_digits (c ∷ s) = let rest = after_digits s in if is_digit c then rest else c ∷ s

-- len(digits) > 1 && digits[0] == '0'
abbrev pub leading_zero : Bytes → Bool
leading_zero [] = false
leading_zero (c ∷ []) = false
leading_zero (c ∷ d ∷ s) = c == b'0'

-- digits[0] == '0'
abbrev pub starts_with_zero : Bytes → Bool
starts_with_zero [] = false
starts_with_zero (c ∷ s) = c == b'0'

-- Consumes one byte that must be `want`.
abbrev pub expect : ℕ → Error → Bytes → Outcome Bytes
expect want e [] = err e
expect want e (c ∷ s) = if c == want then ok s else err e

abbrev pub is_empty : Bytes → Bool
is_empty [] = true
is_empty (c ∷ s) = false

-- Behind the optional sign.
pub integer_digits : Bool → Bytes → Outcome Bytes
unfolding digits_of after_digits
integer_digits negative s =
    let digits = digits_of s in
    if is_empty digits
    then err integer_syntax
    else if leading_zero digits
    then err integer_syntax
    else if negative && starts_with_zero digits
    then err integer_syntax
    else expect b'e' integer_syntax (after_digits s)

abbrev pub integer_signed : Bytes → Outcome Bytes
unfolding integer_digits
integer_signed [] = err eof
integer_signed (c ∷ s) = integer_digits true (c ∷ s)

-- `s` is what follows the `i`.
pub integer : Bytes → Outcome Bytes
unfolding integer_digits
integer [] = err eof
integer (c ∷ s) = if c == b'-' then integer_signed s else integer_digits false (c ∷ s)

abbrev pub length_guard : ℕ
length_guard = (2 ^ 31 - 1) / 10

pub parse_length : ℕ → Bytes → Outcome ℕ
parse_length acc [] = ok acc
parse_length acc (d ∷ ds) =
    let rest = parse_length (acc * 10 + (d - b'0')) ds in
    if ltb length_guard acc then err string_too_long else rest

-- The bytes of the declared length, and what follows them.
abbrev pub content : ℕ → Bytes → Outcome (Bytes × Bytes)
content n s = if ltb (length s) n then err eof else ok (take n s, drop n s)

-- The tests on the declared length, then the colon and the bytes.
pub counted : Limits → Bytes → ℕ → Outcome (Bytes × Bytes)
counted lim s n =
    if ltb n 0
    then err negative_length
    else if ltb 0 lim.max_str_len && ltb lim.max_str_len n
    then err string_too_long
    else (expect b':' syntax s >>= content n)

pub byte_string : Limits → Bytes → Outcome (Bytes × Bytes)
unfolding digits_of after_digits parse_length counted
byte_string lim s =
    let digits = digits_of s in
    if is_empty digits
    then err syntax
    else if leading_zero digits
    then err syntax
    else (parse_length 0 digits >>= counted lim (after_digits s))

-- A loop has room for one more element.
abbrev pub is_full : ℕ → ℕ → Bool
is_full cap count = ltb 0 cap && leb cap count

mutual
  pub value : ℕ → Limits → ℕ → Bytes → Outcome Bytes
  value zero lim depth s = out_of_fuel
  value (suc f) lim depth [] = err eof
  value (suc f) lim depth (b ∷ s) =
      let in_list = list_loop f lim (depth + 1) 0 s in
      let in_dict = dict_loop f lim (depth + 1) 0 s in
      if b == b'i'
      then integer s
      else if b == b'l'
      then (if ltb lim.max_depth (depth + 1) then err depth_exceeded else in_list)
      else if b == b'd'
      then (if ltb lim.max_depth (depth + 1) then err depth_exceeded else in_dict)
      else if is_digit b
      then (byte_string lim (b ∷ s) >>= λ p. ok p.1)
      else err syntax

  pub list_loop : ℕ → Limits → ℕ → ℕ → Bytes → Outcome Bytes
  list_loop zero lim depth count s = out_of_fuel
  list_loop (suc f) lim depth count [] = err eof
  list_loop (suc f) lim depth count (c ∷ s) =
      let rest = value f lim depth (c ∷ s) >>= λ r. list_loop f lim depth (count + 1) r in
      if c == b'e' then ok s else if is_full lim.max_list_len count then err list_too_long else rest

  pub dict_loop : ℕ → Limits → ℕ → ℕ → Bytes → Outcome Bytes
  dict_loop zero lim depth keys s = out_of_fuel
  dict_loop (suc f) lim depth keys [] = err eof
  dict_loop (suc f) lim depth keys (c ∷ s) =
      let rest = byte_string lim (c ∷ s) >>= λ p.
      value f lim depth p.1 >>= λ r. dict_loop f lim depth (keys + 1) r in
      if c == b'e'
      then ok s
      else if is_full lim.max_keys_per_dict keys
      then err dict_too_large
      else if is_digit c
      then rest
      else err syntax

-- `p.pos != len(data)`
abbrev pub at_end : Bytes → Outcome (Unit {0})
at_end [] = ok tt
at_end (c ∷ s) = err trailing_data

-- Each byte pays for at most two units of fuel.
pub validate : Bytes → Limits → Outcome (Unit {0})
validate bytes lim =
    if ltb 0 lim.max_bytes && ltb lim.max_bytes (length bytes)
    then err too_large
    else (value (2 * length bytes + 1) lim 0 bytes >>= at_end)
