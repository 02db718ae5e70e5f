-- ===== src/Bencode/Complete.antt =====
-- The validator accepts the canonical text of every value within the limits.
use weightless.Prelude.{
  ℕ, zero, suc, ◌+◌, ◌*◌, ◌≤◌, ◌≡◌, ◌≢◌, ◌∙◌, refl, false, [], ◌∷◌, ◌++◌, Bytes, arith, length,
  length-append, All,
}
use weightless.Prelude.Decimal.{decimal, IsDigit, IsCanonical, decimal-IsDigit, decimal-IsCanonical}
use weightless.Bencode.{
  Limits, ok, ◌>>=◌, is_full, integer, byte_string, value, list_loop, dict_loop,
}
use weightless.Bencode.Syntax.{
  Value, pos, negsuc, text, list, dict, Items, nil, cons, Fields, end, field, write, write_items,
  write_fields, write_text, count_items, count_fields, WithinCap, Fits, FitsItems, FitsFields,
}
use weightless.Bencode.Tokens.{integer-pos, integer-neg, byte_string-write}

-- Fuel that a value's parser uses.
abbrev mutual
  pub cost : Value → ℕ
  cost (pos n) = 1
  cost (negsuc n) = 1
  cost (text s) = 1
  cost (list xs) = 1 + cost_items xs
  cost (dict fs) = 1 + cost_fields fs

  pub cost_items : Items → ℕ
  cost_items nil = 1
  cost_items (cons v xs) = 1 + cost v + cost_items xs

  pub cost_fields : Fields → ℕ
  cost_fields end = 1
  cost_fields (field k v fs) = 1 + cost v + cost_fields fs

length-decimal-pos : (n : ℕ) → 1 ≤ length (decimal n)
length-decimal-pos n = go (decimal n) (decimal-IsCanonical n)
  where
    go : (ds : Bytes) → IsCanonical ds → 1 ≤ length ds
    go [] h = absurd h
    go (c ∷ ds) h = omega arith

pub length-write_text : (s rest : Bytes) → 2 + length rest ≤ length (write_text s rest)
length-write_text s rest = omega (
  arith,
  length-append (decimal (length s)) (b':' ∷ (s ++ rest)),
  length-append s rest,
  length-decimal-pos (length s),
)

-- The cost of a value is below twice the length of its text.
mutual
  cost-le : (v : Value) (rest : Bytes) → cost v + 1 + 2 * length rest ≤ 2 * length (write v rest)
  cost-le (pos n) rest = omega (arith, length-append (decimal n) (b'e' ∷ rest))
  cost-le (negsuc n) rest = omega (arith, length-append (decimal (suc n)) (b'e' ∷ rest))
  cost-le (text s) rest = omega (arith, length-write_text s rest)
  cost-le (list xs) rest = omega (arith, cost_items-le xs rest)
  cost-le (dict fs) rest = omega (arith, cost_fields-le fs rest)

  cost_items-le :
      (xs : Items) (rest : Bytes)
      → cost_items xs + 2 * length rest ≤ 2 * length (write_items xs rest)
  cost_items-le nil rest = omega arith
  cost_items-le (cons v xs) rest =
      omega (arith, cost-le v (write_items xs rest), cost_items-le xs rest)

  cost_fields-le :
      (fs : Fields) (rest : Bytes)
      → cost_fields fs + 2 * length rest ≤ 2 * length (write_fields fs rest)
  cost_fields-le end rest = omega arith
  cost_fields-le (field k v fs) rest = omega (
    arith,
    length-write_text k (write v (write_fields fs rest)),
    cost-le v (write_fields fs rest),
    cost_fields-le fs rest,
  )

pub cost-le-length :
    (v : Value) (rest : Bytes) → cost v + 1 + 2 * length rest ≤ 2 * length (write v rest)
cost-le-length = cost-le

-- A text that begins with a digit.
abbrev StartsWithDigit : Bytes → Type 0
StartsWithDigit [] = ⊥
StartsWithDigit (c ∷ s) = IsDigit c

write_text-StartsWithDigit : (s rest : Bytes) → StartsWithDigit (write_text s rest)
write_text-StartsWithDigit s rest =
    go (decimal (length s)) (decimal-IsCanonical (length s)) (decimal-IsDigit (length s))
  where
    go : (ds : Bytes) → IsCanonical ds → All IsDigit ds → StartsWithDigit (ds ++ b':' ∷ (s ++ rest))
    go [] h d = absurd h
    go (c ∷ ds) h d = d.0

abbrev NotEnd : Bytes → Type 0
NotEnd [] = ⊥
NotEnd (c ∷ s) = c ≢ b'e'

NotEnd-of_digit : (s : Bytes) → StartsWithDigit s → NotEnd s
NotEnd-of_digit [] h = h
NotEnd-of_digit (c ∷ s) h = omega arith

write-NotEnd : (v : Value) (rest : Bytes) → NotEnd (write v rest)
write-NotEnd (pos n) rest = omega arith
write-NotEnd (negsuc n) rest = omega arith
write-NotEnd (text s) rest = NotEnd-of_digit (write_text s rest) (write_text-StartsWithDigit s rest)
write-NotEnd (list xs) rest = omega arith
write-NotEnd (dict fs) rest = omega arith

-- One unfolding of each parser, where the input is known to take a branch.
value_of_digit :
    (f : ℕ) (lim : Limits) (depth : ℕ) (s : Bytes)
    → StartsWithDigit s
    → value (suc f) lim depth s ≡ (byte_string lim s >>= λ p. ok p.1)
unfolding value
value_of_digit f lim depth [] h = absurd h
value_of_digit f lim depth (c ∷ s) h = ground (arith, h)

list_loop_more :
    (f : ℕ) (lim : Limits) (depth count : ℕ) (s : Bytes)
    → NotEnd s
    → is_full lim.max_list_len count ≡ false
    → list_loop (suc f) lim depth count s
      ≡ (value f lim depth s >>= λ r. list_loop f lim depth (count + 1) r)
unfolding list_loop
list_loop_more f lim depth count [] h free = absurd h
list_loop_more f lim depth count (c ∷ s) h free = ground arith

dict_loop_more :
    (f : ℕ) (lim : Limits) (depth keys : ℕ) (s : Bytes)
    → StartsWithDigit s
    → is_full lim.max_keys_per_dict keys ≡ false
    → dict_loop (suc f) lim depth keys s ≡ (
        byte_string lim s >>= λ p.
        value f lim depth p.1 >>= λ r. dict_loop f lim depth (keys + 1) r)
unfolding dict_loop
dict_loop_more f lim depth keys [] h free = absurd h
dict_loop_more f lim depth keys (c ∷ s) h free = ground (arith, h)

not_full : (cap count n : ℕ) → WithinCap cap (count + suc n) → is_full cap count ≡ false
not_full cap count n h = ground arith

shift_cap : (cap count n : ℕ) → WithinCap cap (count + suc n) → WithinCap cap (count + 1 + n)
shift_cap cap count n h = ground arith

value_list :
    (f : ℕ) (lim : Limits) (depth : ℕ) (s : Bytes)
    → depth + 1 ≤ lim.max_depth
    → value (suc f) lim depth (b'l' ∷ s) ≡ list_loop f lim (depth + 1) 0 s
unfolding value
value_list f lim depth s h = ground arith

value_dict :
    (f : ℕ) (lim : Limits) (depth : ℕ) (s : Bytes)
    → depth + 1 ≤ lim.max_depth
    → value (suc f) lim depth (b'd' ∷ s) ≡ dict_loop f lim (depth + 1) 0 s
unfolding value
value_dict f lim depth s h = ground arith

value-integer :
    (f : ℕ) (lim : Limits) (depth : ℕ) (s : Bytes) → value (suc f) lim depth (b'i' ∷ s) ≡ integer s
unfolding value
value-integer f lim depth s = refl

list_loop_end :
    (f : ℕ) (lim : Limits) (depth count : ℕ) (s : Bytes)
    → list_loop (suc f) lim depth count (b'e' ∷ s) ≡ ok s
unfolding list_loop
list_loop_end f lim depth count s = refl

dict_loop_end :
    (f : ℕ) (lim : Limits) (depth keys : ℕ) (s : Bytes)
    → dict_loop (suc f) lim depth keys (b'e' ∷ s) ≡ ok s
unfolding dict_loop
dict_loop_end f lim depth keys s = refl

mutual
  complete :
      (v : Value) (f : ℕ) (lim : Limits) (depth : ℕ) (rest : Bytes)
      → cost v ≤ f
      → Fits lim depth v
      → value f lim depth (write v rest) ≡ ok rest
  complete v zero lim depth rest c h = absurd (no_cost v c)
    where
      no_cost : (v : Value) → cost v ≤ 0 → ⊥
      no_cost (pos n) c = omega arith
      no_cost (negsuc n) c = omega arith
      no_cost (text s) c = omega arith
      no_cost (list xs) c = omega arith
      no_cost (dict fs) c = omega arith
  complete (pos n) (suc f) lim depth rest c h = value-integer f lim depth _ ∙ integer-pos n rest
  complete (negsuc n) (suc f) lim depth rest c h = value-integer f lim depth _ ∙ integer-neg n rest
  complete (text s) (suc f) lim depth rest c h = rw (
    value_of_digit f lim depth (write_text s rest) (write_text-StartsWithDigit s rest),
    byte_string-write lim s rest h,
  )
  complete (list xs) (suc f) lim depth rest c h =
      value_list f lim depth (write_items xs rest) h.0
      ∙ complete_items xs f lim (depth + 1) 0 rest (omega arith) (ground arith) h.2
  complete (dict fs) (suc f) lim depth rest c h =
      value_dict f lim depth (write_fields fs rest) h.0
      ∙ complete_fields fs f lim (depth + 1) 0 rest (omega arith) (ground arith) h.2

  complete_items :
      (xs : Items) (f : ℕ) (lim : Limits) (depth count : ℕ) (rest : Bytes)
      → cost_items xs ≤ f
      → WithinCap lim.max_list_len (count + count_items xs)
      → FitsItems lim depth xs
      → list_loop f lim depth count (write_items xs rest) ≡ ok rest
  complete_items nil zero lim depth count rest c w h = absurd (omega arith)
  complete_items nil (suc f) lim depth count rest c w h = list_loop_end f lim depth count rest
  complete_items (cons v xs) zero lim depth count rest c w h = absurd (omega arith)
  complete_items (cons v xs) (suc f) lim depth count rest c w h =
      rw
        (
          list_loop_more f lim depth count (write v (write_items xs rest))
              (write-NotEnd v (write_items xs rest))
              (not_full lim.max_list_len count (count_items xs) w),
          complete v f lim depth (write_items xs rest) (omega arith) h.0,
        )
        (complete_items xs f lim depth (count + 1) rest (omega arith)
          (shift_cap lim.max_list_len count (count_items xs) w) h.1)

  complete_fields :
      (fs : Fields) (f : ℕ) (lim : Limits) (depth keys : ℕ) (rest : Bytes)
      → cost_fields fs ≤ f
      → WithinCap lim.max_keys_per_dict (keys + count_fields fs)
      → FitsFields lim depth fs
      → dict_loop f lim depth keys (write_fields fs rest) ≡ ok rest
  complete_fields end zero lim depth keys rest c w h = absurd (omega arith)
  complete_fields end (suc f) lim depth keys rest c w h = dict_loop_end f lim depth keys rest
  complete_fields (field k v fs) zero lim depth keys rest c w h = absurd (omega arith)
  complete_fields (field k v fs) (suc f) lim depth keys rest c w h =
      rw
        (
          dict_loop_more f lim depth keys (write_text k (write v (write_fields fs rest)))
              (write_text-StartsWithDigit k (write v (write_fields fs rest)))
              (not_full lim.max_keys_per_dict keys (count_fields fs) w),
          byte_string-write lim k (write v (write_fields fs rest)) h.0,
          complete v f lim depth (write_fields fs rest) (omega arith) h.1,
        )
        (complete_fields fs f lim depth (keys + 1) rest (omega arith)
          (shift_cap lim.max_keys_per_dict keys (count_fields fs) w) h.2)

-- With enough fuel the parser reads back what the grammar writes.
pub value-write :
    (v : Value) (f : ℕ) (lim : Limits) (depth : ℕ) (rest : Bytes)
    → cost v ≤ f
    → Fits lim depth v
    → value f lim depth (write v rest) ≡ ok rest
value-write = complete
