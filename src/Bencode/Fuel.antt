-- ===== src/Bencode/Fuel.antt =====
-- The fuel of `validate` is enough for every input, also for those that are refused.
use weightless.Prelude.{
  ℕ, zero, suc, ◌+◌, ◌-◌, ◌*◌, ◌≤◌, ◌<◌, ◌≡◌, ◌≢◌, refl, ap, [], ◌∷◌, Bytes, arith, length,
}
use weightless.Bencode.{
  Limits, Outcome, ok, err, out_of_fuel, ◌>>=◌, digits_of, after_digits, integer, parse_length,
  counted, byte_string, value, list_loop, dict_loop, at_end, validate,
}
use weightless.Bencode.Tokens.{byte_string_sound}
use weightless.Bencode.Sound.{value-ReadsValue}
use weightless.Bencode.Complete.{cost-le-length, length-write_text}

-- `m` does not run out, and neither does what follows it.
>>=-ne-out_of_fuel {ℓ κ} :
    {A : Type ℓ} {B : Type κ} (m : Outcome A) (f : A → Outcome B)
    → m ≢ out_of_fuel
    → ((a : A) → m ≡ ok a → f a ≢ out_of_fuel)
    → (m >>= f) ≢ out_of_fuel
>>=-ne-out_of_fuel (ok a) f h k = k a refl
>>=-ne-out_of_fuel (err e) f h k = λ p. cc
>>=-ne-out_of_fuel out_of_fuel f h k = absurd (h refl)

integer-ne-out_of_fuel : (s : Bytes) → integer s ≢ out_of_fuel
unfolding integer
integer-ne-out_of_fuel [] p = cc
integer-ne-out_of_fuel (c ∷ []) p = ground arith
integer-ne-out_of_fuel (c ∷ d ∷ s) p = ground arith

parse_length-ne-out_of_fuel : (ds : Bytes) (acc : ℕ) → parse_length acc ds ≢ out_of_fuel
unfolding parse_length
parse_length-ne-out_of_fuel [] acc p = cc
parse_length-ne-out_of_fuel (c ∷ ds) acc p =
    ground (arith, parse_length-ne-out_of_fuel ds (acc * 10 + (c - b'0')))

counted-ne-out_of_fuel : (lim : Limits) (s : Bytes) (n : ℕ) → counted lim s n ≢ out_of_fuel
unfolding counted
counted-ne-out_of_fuel lim [] n p = ground arith
counted-ne-out_of_fuel lim (c ∷ s) n p = ground arith

byte_string-ne-out_of_fuel : (lim : Limits) (s : Bytes) → byte_string lim s ≢ out_of_fuel
unfolding byte_string
byte_string-ne-out_of_fuel lim s p = ground (
  arith,
  >>=-ne-out_of_fuel (parse_length 0 (digits_of s)) (counted lim (after_digits s))
      (parse_length-ne-out_of_fuel (digits_of s) 0)
      (λ n q. counted-ne-out_of_fuel lim (after_digits s) n),
)

-- What a successful parse leaves is shorter.
value-shorter :
    (f : ℕ) (lim : Limits) (depth : ℕ) (s : Bytes) {r : Bytes}
    → value f lim depth s ≡ ok r
    → length r < length s
value-shorter f lim depth s {r} h =
    let (v, spelled, _) = value-ReadsValue f lim depth s {r = r} h in
    omega (arith, cost-le-length v r, ap length spelled)

byte_string-shorter :
    (lim : Limits) (s : Bytes) {t r : Bytes} → byte_string lim s ≡ ok (t, r) → length r < length s
byte_string-shorter lim s {t} {r} h =
    omega (arith, length-write_text t r, ap length (byte_string_sound lim s {t = t} {r = r} h).0)

mutual
  unfolding value list_loop dict_loop

  value_fuel :
      (f : ℕ) (lim : Limits) (depth : ℕ) (s : Bytes)
      → 2 * length s ≤ f
      → 1 ≤ f
      → value f lim depth s ≢ out_of_fuel
  value_fuel zero lim depth s h e p = absurd (omega arith)
  value_fuel (suc f) lim depth [] h e p = cc
  value_fuel (suc f) lim depth (b ∷ s) h e p = ground (
    arith,
    integer-ne-out_of_fuel s,
    list_loop_fuel f lim (depth + 1) 0 s (omega arith),
    dict_loop_fuel f lim (depth + 1) 0 s (omega arith),
    >>=-ne-out_of_fuel (byte_string lim (b ∷ s)) (λ q. ok q.1)
        (byte_string-ne-out_of_fuel lim (b ∷ s)) (λ q r x. cc),
  )

  list_loop_fuel :
      (f : ℕ) (lim : Limits) (depth count : ℕ) (s : Bytes)
      → 2 * length s + 1 ≤ f
      → list_loop f lim depth count s ≢ out_of_fuel
  list_loop_fuel zero lim depth count s h p = absurd (omega arith)
  list_loop_fuel (suc f) lim depth count [] h p = cc
  list_loop_fuel (suc f) lim depth count (c ∷ s) h p = ground (
    arith,
    >>=-ne-out_of_fuel (value f lim depth (c ∷ s)) (λ r. list_loop f lim depth (count + 1) r)
        (value_fuel f lim depth (c ∷ s) (omega arith) (omega arith))
        (λ r read.
          list_loop_fuel f lim depth (count + 1) r
            (omega (arith, value-shorter f lim depth (c ∷ s) {r = r} read))),
  )

  dict_loop_fuel :
      (f : ℕ) (lim : Limits) (depth keys : ℕ) (s : Bytes)
      → 2 * length s + 1 ≤ f
      → dict_loop f lim depth keys s ≢ out_of_fuel
  dict_loop_fuel zero lim depth keys s h p = absurd (omega arith)
  dict_loop_fuel (suc f) lim depth keys [] h p = cc
  dict_loop_fuel (suc f) lim depth keys (c ∷ s) h p = ground (
    arith,
    >>=-ne-out_of_fuel (byte_string lim (c ∷ s))
        (λ q. value f lim depth q.1 >>= λ r. dict_loop f lim depth (keys + 1) r)
        (byte_string-ne-out_of_fuel lim (c ∷ s))
        (λ q key.
          >>=-ne-out_of_fuel (value f lim depth q.1) (λ r. dict_loop f lim depth (keys + 1) r)
            (value_fuel f lim depth q.1
              (omega (arith, byte_string-shorter lim (c ∷ s) {t = q.0} {r = q.1} key))
              (omega arith))
            (λ r read. dict_loop_fuel f lim depth (keys + 1) r (
              omega (
                arith,
                byte_string-shorter lim (c ∷ s) {t = q.0} {r = q.1} key,
                value-shorter f lim depth q.1 {r = r} read,
              )))),
  )

at_end-ne-out_of_fuel : (s : Bytes) → at_end s ≢ out_of_fuel
at_end-ne-out_of_fuel [] p = cc
at_end-ne-out_of_fuel (c ∷ s) p = cc

-- The validator always comes to a verdict: no input, however malformed, exhausts the fuel.
pub validate-ne-out_of_fuel : (bytes : Bytes) (lim : Limits) → validate bytes lim ≢ out_of_fuel
unfolding validate
validate-ne-out_of_fuel bytes lim p = ground (
  arith,
  >>=-ne-out_of_fuel (value (2 * length bytes + 1) lim 0 bytes) (λ r. at_end r)
      (value_fuel (2 * length bytes + 1) lim 0 bytes (omega arith) (omega arith))
      (λ r q. at_end-ne-out_of_fuel r),
)
