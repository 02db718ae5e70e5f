-- ===== src/Bencode/Recognizer.antt =====
-- `validate` decides exactly the bounded grammar.
use weightless.Prelude.{◌+◌, ◌*◌, ◌≤◌, ◌≡◌, ◌↔◌, refl, sym, ap, ◌∙◌, [], ◌∷◌, Bytes, arith, length}
use weightless.Bencode.{Limits, ok, value, at_end, validate}
use weightless.Bencode.Syntax.{Value, write, encode, WithinCap, Fits}
use weightless.Bencode.Sound.{>>=-eq-ok, value-ReadsValue}
use weightless.Bencode.Complete.{cost, cost-le-length, value-write}

-- The input is the canonical text of a value, and input and value keep to the limits.
abbrev pub Recognized : Bytes → Limits → Type 0
Recognized bytes lim =
    WithinCap lim.max_bytes (length bytes) × ((v : Value) × (encode v ≡ bytes) × Fits lim 0 v)

at_end_sound : (r : Bytes) → at_end r ≡ ok tt → r ≡ []
at_end_sound [] h = refl
at_end_sound (c ∷ r) h = cc

accepted : (bytes : Bytes) (lim : Limits) → validate bytes lim ≡ ok tt → Recognized bytes lim
unfolding validate
accepted bytes lim h =
    let (r, read, last) =
      >>=-eq-ok (value (2 * length bytes + 1) lim 0 bytes) (λ r. at_end r) (ground arith) in
    let (v, spelled, fits) = value-ReadsValue (2 * length bytes + 1) lim 0 bytes {r = r} read in
    (ground arith, (v, sym (spelled ∙ ap (write v) (at_end_sound r last)), fits))

recognized : (bytes : Bytes) (lim : Limits) → Recognized bytes lim → validate bytes lim ≡ ok tt
unfolding validate
recognized bytes lim (capped, (v, spelled, fits)) =
    let enough : cost v ≤ 2 * length bytes + 1 =
      omega (arith, cost-le-length v [], ap length spelled) in
    let reads : value (2 * length bytes + 1) lim 0 bytes ≡ ok [] =
      ap (value (2 * length bytes + 1) lim 0) (sym spelled)
      ∙ value-write v (2 * length bytes + 1) lim 0 [] enough fits in
    ground (arith, reads)

-- The validator accepts an input exactly when it is the canonical text of a bencoded value and
-- the size, the nesting, each string, each list and each dictionary keep to the limits.
pub validate-iff-Recognized :
    (bytes : Bytes) (lim : Limits) → (validate bytes lim ≡ ok tt) ↔ Recognized bytes lim
validate-iff-Recognized bytes lim = (accepted bytes lim, recognized bytes lim)
