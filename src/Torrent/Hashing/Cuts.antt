-- ===== src/Torrent/Hashing/Cuts.antt =====
-- A stream cut into pieces of one size, byte by byte: what piecewise hashing is about.
use weightless.Prelude.{
  ℕ, ◌+◌, ◌*◌, ◌≤◌, ◌<◌, ◌≡◌, refl, sym, ap, ◌∙◌, true, false, List, [], ◌∷◌, ◌++◌, Bytes, ◌==◌,
  length, length-append, append_assoc, append-nil, arith, Bool-cases, inl, inr,
}

abbrev pub rest_of : Bytes → List Bytes
rest_of [] = []
rest_of (c ∷ s) = (c ∷ s) ∷ []

-- The pieces of a stream behind the bytes `buf` of a piece that is not full; the last may be short.
unfoldable pub cuts : ℕ → Bytes → Bytes → List Bytes
cuts n buf [] = rest_of buf
cuts n buf (c ∷ s) = elim (length (buf ++ c ∷ []) == n) [
  | true ↦ (buf ++ c ∷ []) ∷ cuts n [] s
  | false ↦ cuts n (buf ++ c ∷ []) s
]

step_short :
    (n : ℕ) (buf : Bytes) (c : ℕ) (s : Bytes)
    → (length (buf ++ c ∷ []) == n) ≡ false
    → cuts n buf (c ∷ s) ≡ cuts n (buf ++ c ∷ []) s
unfolding cuts
step_short n buf c s h = rw (h, cuts) refl

step_full :
    (n : ℕ) (buf : Bytes) (c : ℕ) (s : Bytes)
    → (length (buf ++ c ∷ []) == n) ≡ true
    → cuts n buf (c ∷ s) ≡ (buf ++ c ∷ []) ∷ cuts n [] s
unfolding cuts
step_full n buf c s h = rw (h, cuts) refl

pub cuts_short :
    (n : ℕ) (buf x s : Bytes)
    → length buf + length x < n
    → cuts n buf (x ++ s) ≡ cuts n (buf ++ x) s
cuts_short n buf [] s h = ap (λ b. cuts n b s) (sym (append-nil buf))
cuts_short n buf (c ∷ x) s h =
    let grown = length-append buf (c ∷ []) in
    let room : (length (buf ++ c ∷ []) == n) ≡ false = ground (arith, grown) in
    step_short n buf c (x ++ s) room
    ∙ (cuts_short n (buf ++ c ∷ []) x s (omega (arith, grown, h))
        ∙ ap (λ b. cuts n b s) (append_assoc buf (c ∷ []) x))

pub cuts_full :
    (n : ℕ) (buf x s : Bytes)
    → 0 < length x
    → length buf + length x ≡ n
    → cuts n buf (x ++ s) ≡ (buf ++ x) ∷ cuts n [] s
cuts_full n buf [] s pos h = absurd (omega (arith, pos))
cuts_full n buf (c ∷ []) s pos h =
    let full : (length (buf ++ c ∷ []) == n) ≡ true = ground (arith, length-append buf (c ∷ [])) in
    step_full n buf c s full
cuts_full n buf (c ∷ d ∷ x) s pos h =
    let grown = length-append buf (c ∷ []) in
    let room : (length (buf ++ c ∷ []) == n) ≡ false = ground (arith, grown) in
    step_short n buf c ((d ∷ x) ++ s) room
    ∙ (cuts_full n (buf ++ c ∷ []) (d ∷ x) s (omega arith) (omega (arith, grown, h))
        ∙ ap (λ b. b ∷ cuts n [] s) (append_assoc buf (c ∷ []) (d ∷ x)))

-- Only the bytes count: the pieces put together are the stream.
abbrev pub joined : List Bytes → Bytes
joined [] = []
joined (x ∷ xs) = x ++ joined xs

pub joined-cuts : (n : ℕ) (buf s : Bytes) → joined (cuts n buf s) ≡ buf ++ s
unfolding cuts
joined-cuts n [] [] = refl
joined-cuts n (c ∷ buf) [] = refl
joined-cuts n buf (c ∷ s) = elim (Bool-cases (length (buf ++ c ∷ []) == n)) [
  | inl full ↦
      ap joined (step_full n buf c s full)
      ∙ ap (λ t. (buf ++ c ∷ []) ++ t) (joined-cuts n [] s)
      ∙ append_assoc buf (c ∷ []) s
  | inr short ↦
      ap joined (step_short n buf c s short)
      ∙ joined-cuts n (buf ++ c ∷ []) s
      ∙ append_assoc buf (c ∷ []) s
]

-- So many pieces hold so many bytes at most.
pub length-cuts :
    (n : ℕ) (buf s : Bytes) → length buf < n → length buf + length s ≤ n * length (cuts n buf s)
unfolding cuts
length-cuts n [] [] h = omega arith
length-cuts n (c ∷ buf) [] h = grind arith
length-cuts n buf (c ∷ s) h = elim (Bool-cases (length (buf ++ c ∷ []) == n)) [
  | inl full ↦
      let rest = length-cuts n [] s (omega (arith, h)) in
      rw (step_full n buf c s full) (grind (arith, length-append buf (c ∷ [])))
  | inr short ↦
      let grown = length-append buf (c ∷ []) in
      let rest = length-cuts n (buf ++ c ∷ []) s (ground (arith, grown)) in
      rw (step_short n buf c s short) (omega (arith, grown, rest))
]
