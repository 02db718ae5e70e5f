-- ===== src/Bencode/Syntax.antt =====
-- Bencoded values (BEP 3) and their canonical text: the grammar that the validator is measured by.
use weightless.Prelude.{ℕ, suc, ◌+◌, ◌*◌, ◌≤◌, ◌≡◌, ◌⊎◌, [], ◌∷◌, ◌++◌, Bytes, length, codes, refl}
use weightless.Prelude.Decimal.{decimal}
use weightless.Bencode.{Limits, length_guard}

mutual
  pub data Value : Type 0 where
    pos : ℕ → Value
    negsuc : ℕ → Value
    text : Bytes → Value
    list : Items → Value
    dict : Fields → Value

  pub data Items : Type 0 where
    nil : Items
    cons : Value → Items → Items

  pub data Fields : Type 0 where
    end : Fields
    field : Bytes → Value → Fields → Fields

-- <length>:<bytes>, then `rest`
abbrev pub write_text : Bytes → Bytes → Bytes
write_text s rest = decimal (length s) ++ b':' ∷ (s ++ rest)

abbrev mutual
  pub write : Value → Bytes → Bytes
  write (pos n) rest = b'i' ∷ (decimal n ++ b'e' ∷ rest)
  write (negsuc n) rest = b'i' ∷ b'-' ∷ (decimal (suc n) ++ b'e' ∷ rest)
  write (text s) rest = write_text s rest
  write (list xs) rest = b'l' ∷ write_items xs rest
  write (dict fs) rest = b'd' ∷ write_fields fs rest

  pub write_items : Items → Bytes → Bytes
  write_items nil rest = b'e' ∷ rest
  write_items (cons v xs) rest = write v (write_items xs rest)

  pub write_fields : Fields → Bytes → Bytes
  write_fields end rest = b'e' ∷ rest
  write_fields (field k v fs) rest = write_text k (write v (write_fields fs rest))

-- The canonical text of a value.
abbrev pub encode : Value → Bytes
encode v = write v []

abbrev pub count_items : Items → ℕ
count_items nil = 0
count_items (cons v xs) = suc (count_items xs)

abbrev pub count_fields : Fields → ℕ
count_fields end = 0
count_fields (field k v fs) = suc (count_fields fs)

-- A cap of 0 is no cap.
abbrev pub WithinCap : ℕ → ℕ → Type 0
WithinCap cap n = (cap ≡ 0) ⊎ (n ≤ cap)

-- Below the validator's own guard against overflow, which the last digit may pass by 9.
abbrev pub FitsText : Limits → Bytes → Type 0
FitsText lim s = WithinCap lim.max_str_len (length s) × (length s ≤ length_guard * 10 + 9)

abbrev mutual
  pub Fits : Limits → ℕ → Value → Type 0
  Fits lim depth (pos n) = Unit
  Fits lim depth (negsuc n) = Unit
  Fits lim depth (text s) = FitsText lim s
  Fits lim depth (list xs) =
      (depth + 1 ≤ lim.max_depth)
      × WithinCap lim.max_list_len (count_items xs)
      × FitsItems lim (depth + 1) xs
  Fits lim depth (dict fs) =
      (depth + 1 ≤ lim.max_depth)
      × WithinCap lim.max_keys_per_dict (count_fields fs)
      × FitsFields lim (depth + 1) fs

  pub FitsItems : Limits → ℕ → Items → Type 0
  FitsItems lim depth nil = Unit
  FitsItems lim depth (cons v xs) = Fits lim depth v × FitsItems lim depth xs

  pub FitsFields : Limits → ℕ → Fields → Type 0
  FitsFields lim depth end = Unit
  FitsFields lim depth (field k v fs) = FitsText lim k × Fits lim depth v × FitsFields lim depth fs

encode_sample :
    encode (dict (field (codes "a") (list (cons (negsuc 11) nil)) end)) ≡ codes "d1:ali-12eee"
unfolding decimal
encode_sample = refl
