-- ===== src/Bencode/Sound.antt =====
-- What the validator accepts is the canonical text of a value within the limits.
use weightless.Prelude.{
  ℕ, zero, suc, ◌+◌, ◌≤◌, ◌≡◌, ◌∙◌, ◌⊎◌, inl, inr, refl, ap, false, [], ◌∷◌, Bytes, arith,
}
use weightless.Bencode.{
  Limits, Outcome, ok, err, out_of_fuel, ◌>>=◌, is_full, integer, byte_string, value, list_loop,
  dict_loop,
}
use weightless.Bencode.Syntax.{
  Value, pos, negsuc, text, list, dict, Items, nil, cons, Fields, end, field, write, write_items,
  write_fields, write_text, count_items, count_fields, WithinCap, FitsText, Fits, FitsItems,
  FitsFields,
}
use weightless.Bencode.Tokens.{AfterSign, integer_sound, byte_string_sound}

-- Inversion of a successful bind.
pub >>=-eq-ok {ℓ κ} :
    {A : Type ℓ} {B : Type κ} (read : Outcome A) (next : A → Outcome B) {result : B}
    → (read >>= next) ≡ ok result
    → (found : A) × (read ≡ ok found) × (next found ≡ ok result)
>>=-eq-ok out_of_fuel next made = cc
>>=-eq-ok (err reason) next made = cc
>>=-eq-ok (ok found) next made = (found, refl, made)

-- Which branch of `value` succeeded.
value_branches :
    (f : ℕ) (lim : Limits) (depth b : ℕ) (s : Bytes) {r : Bytes}
    → value (suc f) lim depth (b ∷ s) ≡ ok r
    → ((b ≡ b'i') × (integer s ≡ ok r))
      ⊎ ((b ≡ b'l') × (depth + 1 ≤ lim.max_depth) × (list_loop f lim (depth + 1) 0 s ≡ ok r))
      ⊎ ((b ≡ b'd') × (depth + 1 ≤ lim.max_depth) × (dict_loop f lim (depth + 1) 0 s ≡ ok r))
      ⊎ ((byte_string lim (b ∷ s) >>= λ p. ok p.1) ≡ ok r)
unfolding value
value_branches f lim depth b s h = ground arith

list_loop_branches :
    (f : ℕ) (lim : Limits) (depth count c : ℕ) (s : Bytes) {r : Bytes}
    → list_loop (suc f) lim depth count (c ∷ s) ≡ ok r
    → ((c ≡ b'e') × (s ≡ r))
      ⊎ ((is_full lim.max_list_len count ≡ false)
          × ((value f lim depth (c ∷ s) >>= λ u. list_loop f lim depth (count + 1) u) ≡ ok r))
unfolding list_loop
list_loop_branches f lim depth count c s h = ground arith

dict_loop_branches :
    (f : ℕ) (lim : Limits) (depth keys c : ℕ) (s : Bytes) {r : Bytes}
    → dict_loop (suc f) lim depth keys (c ∷ s) ≡ ok r
    → ((c ≡ b'e') × (s ≡ r))
      ⊎ ((is_full lim.max_keys_per_dict keys ≡ false)
          × ((byte_string lim (c ∷ s) >>= λ p.
                value f lim depth p.1 >>= λ u. dict_loop f lim depth (keys + 1) u)
              ≡ ok r))
unfolding dict_loop
dict_loop_branches f lim depth keys c s h = ground arith

abbrev pub ReadsValue : Limits → ℕ → Bytes → Bytes → Type 0
ReadsValue lim depth s r = (v : Value) × (s ≡ write v r) × Fits lim depth v

abbrev ReadsItems : Limits → ℕ → ℕ → Bytes → Bytes → Type 0
ReadsItems lim depth count s r =
    (xs : Items) × (s ≡ write_items xs r)
    × WithinCap lim.max_list_len (count + count_items xs)
    × FitsItems lim depth xs

abbrev ReadsFields : Limits → ℕ → ℕ → Bytes → Bytes → Type 0
ReadsFields lim depth keys s r =
    (fs : Fields) × (s ≡ write_fields fs r)
    × WithinCap lim.max_keys_per_dict (keys + count_fields fs)
    × FitsFields lim depth fs

-- A value whose first byte is `b`, branch by branch.
integer_value :
    (lim : Limits) (depth b : ℕ) (s : Bytes) {r : Bytes}
    → b ≡ b'i'
    → AfterSign s r
    → ReadsValue lim depth (b ∷ s) r
integer_value lim depth b s e (inl (n, h)) = (pos n, ap (λ x. x ∷ s) e ∙ ap (◌∷◌ b'i') h, tt)
integer_value lim depth b s e (inr (n, h)) = (negsuc n, ap (λ x. x ∷ s) e ∙ ap (◌∷◌ b'i') h, tt)

text_value :
    (lim : Limits) (depth : ℕ) (s : Bytes) {r : Bytes}
    → (byte_string lim s >>= λ p. ok p.1) ≡ ok r
    → ReadsValue lim depth s r
text_value lim depth s {r} h =
    let ((t, u), read, e) = >>=-eq-ok (byte_string lim s) (λ p. ok p.1) h in
    let same : u ≡ r = cc e in
    let (spelled, fits) = byte_string_sound lim s {t = t} {r = u} read in
    (text t, spelled ∙ ap (write_text t) same, fits)

list_value :
    (lim : Limits) (depth b : ℕ) (s : Bytes) {r : Bytes}
    → b ≡ b'l'
    → depth + 1 ≤ lim.max_depth
    → ReadsItems lim (depth + 1) 0 s r
    → ReadsValue lim depth (b ∷ s) r
list_value lim depth b s e deep (xs, spelled, capped, fits) =
    (list xs, ap (λ x. x ∷ s) e ∙ ap (◌∷◌ b'l') spelled, (deep, ground arith, fits))

dict_value :
    (lim : Limits) (depth b : ℕ) (s : Bytes) {r : Bytes}
    → b ≡ b'd'
    → depth + 1 ≤ lim.max_depth
    → ReadsFields lim (depth + 1) 0 s r
    → ReadsValue lim depth (b ∷ s) r
dict_value lim depth b s e deep (fs, spelled, capped, fits) =
    (dict fs, ap (λ x. x ∷ s) e ∙ ap (◌∷◌ b'd') spelled, (deep, ground arith, fits))

-- One more element in front of those that the rest of the loop reads.
cons_item :
    (lim : Limits) (depth count : ℕ) (s u : Bytes) {r : Bytes}
    → ReadsValue lim depth s u
    → ReadsItems lim depth (count + 1) u r
    → ReadsItems lim depth count s r
cons_item lim depth count s u (v, spelled, fits) (xs, after, capped, all_fit) =
    (cons v xs, spelled ∙ ap (write v) after, ground arith, (fits, all_fit))

cons_field :
    (lim : Limits) (depth keys : ℕ) (s k t u : Bytes) {r : Bytes}
    → (s ≡ write_text k t) × FitsText lim k
    → ReadsValue lim depth t u
    → ReadsFields lim depth (keys + 1) u r
    → ReadsFields lim depth keys s r
cons_field lim depth keys s k t u (key, key_fits) (v, spelled, fits) (fs, after, capped, all_fit) =
    (
      field k v fs,
      key ∙ ap (write_text k) (spelled ∙ ap (write v) after),
      ground arith,
      (key_fits, fits, all_fit),
    )

no_more : (cap n : ℕ) → WithinCap cap n → WithinCap cap (n + 0)
no_more cap n h = ground arith

room : (cap count : ℕ) → is_full cap count ≡ false → WithinCap cap (count + 1)
room cap count h = ground arith

mutual
  unfolding value list_loop dict_loop

  value_sound :
      (f : ℕ) (lim : Limits) (depth : ℕ) (s : Bytes) {r : Bytes}
      → value f lim depth s ≡ ok r
      → ReadsValue lim depth s r
  value_sound zero lim depth s h = cc
  value_sound (suc f) lim depth [] h = cc
  value_sound (suc f) lim depth (b ∷ s) {r} h = elim (value_branches f lim depth b s h) [
    | inl (e, read) ↦ integer_value lim depth b s e (integer_sound s read)
    | inr (inl (e, deep, read)) ↦
        list_value lim depth b s e deep (list_loop_sound f lim (depth + 1) 0 s (ground arith) read)
    | inr (inr (inl (e, deep, read))) ↦
        dict_value lim depth b s e deep (dict_loop_sound f lim (depth + 1) 0 s (ground arith) read)
    | inr (inr (inr read)) ↦ text_value lim depth (b ∷ s) read
  ]

  list_loop_sound :
      (f : ℕ) (lim : Limits) (depth count : ℕ) (s : Bytes) {r : Bytes}
      → WithinCap lim.max_list_len count
      → list_loop f lim depth count s ≡ ok r
      → ReadsItems lim depth count s r
  list_loop_sound zero lim depth count s w h = cc
  list_loop_sound (suc f) lim depth count [] w h = cc
  list_loop_sound (suc f) lim depth count (c ∷ s) {r} w h =
      elim (list_loop_branches f lim depth count c s h) [
        | inl (e, same) ↦
            (nil, ap (λ x. x ∷ s) e ∙ ap (◌∷◌ b'e') same, no_more lim.max_list_len count w, tt)
        | inr (fits, rest) ↦
            let (u, read, more) = >>=-eq-ok (value f lim depth (c ∷ s)) _ rest in
            cons_item lim depth count (c ∷ s) u (value_sound f lim depth (c ∷ s) read)
              (list_loop_sound f lim depth (count + 1) u (room lim.max_list_len count fits) more)
      ]

  dict_loop_sound :
      (f : ℕ) (lim : Limits) (depth keys : ℕ) (s : Bytes) {r : Bytes}
      → WithinCap lim.max_keys_per_dict keys
      → dict_loop f lim depth keys s ≡ ok r
      → ReadsFields lim depth keys s r
  dict_loop_sound zero lim depth keys s w h = cc
  dict_loop_sound (suc f) lim depth keys [] w h = cc
  dict_loop_sound (suc f) lim depth keys (c ∷ s) {r} w h =
      elim (dict_loop_branches f lim depth keys c s h) [
        | inl (e, same) ↦
            (end, ap (λ x. x ∷ s) e ∙ ap (◌∷◌ b'e') same, no_more lim.max_keys_per_dict keys w, tt)
        | inr (fits, rest) ↦
            let ((k, t), key, tail) = >>=-eq-ok (byte_string lim (c ∷ s)) _ rest in
            let (u, read, more) = >>=-eq-ok (value f lim depth t) _ tail in
            cons_field lim depth keys (c ∷ s) k t u (byte_string_sound lim (c ∷ s) key)
              (value_sound f lim depth t read)
              (dict_loop_sound f lim depth (keys + 1) u (room lim.max_keys_per_dict keys fits) more)
      ]

-- What one value's parser consumes is the canonical text of a value within the limits.
pub value-ReadsValue :
    (f : ℕ) (lim : Limits) (depth : ℕ) (s : Bytes) {r : Bytes}
    → value f lim depth s ≡ ok r
    → ReadsValue lim depth s r
value-ReadsValue = value_sound
