-- ===== src/Tracker/Auth/Passkeys.antt =====
-- Who is let in.
use weightless.Prelude.{
  ℕ, ◌≤◌, ◌≡◌, ◌≢◌, ◌⊎◌, ◌↔◌, refl, ap, ◌∙◌, false, List, [], ◌∷◌, ◌++◌, Bytes, ===_iff, arith, All,
  IsByte, inl,
}
use weightless.Prelude.Hex.{hex_encode-IsHexDigit, IsHexDigit}
use weightless.Prelude.Split.{contains, split, split-append, split-lacks, split_two}
use weightless.Cli
use weightless.Tracker.Auth.{verified, check_parts, sign_user_id, verify_passkey}

contains-IsHexDigit :
    (c : ℕ) (s : Bytes) → All IsHexDigit s → (c ≡ b'.') ⊎ (c ≡ b'/') → contains c s ≡ false
contains-IsHexDigit c [] h e = refl
contains-IsHexDigit c (x ∷ s) h e = ground (arith, h.0, contains-IsHexDigit c s h.1)

-- A digest is bytes.
abbrev pub IsMac : (Bytes → Bytes → Bytes) → Type 0
IsMac mac = (secret message : Bytes) → All IsByte (mac secret message)

-- An unreserved character of a URL but the dot
abbrev pub IsNameCharacter : ℕ → Type 0
IsNameCharacter c =
    ((b'0' ≤ c) × (c ≤ b'9'))
    ⊎ (((b'A' ≤ c) × (c ≤ b'Z'))
        ⊎ (((b'a' ≤ c) × (c ≤ b'z')) ⊎ ((c ≡ b'-') ⊎ ((c ≡ b'_') ⊎ (c ≡ b'~')))))

abbrev pub IsPlain : ℕ → Type 0
IsPlain c = IsNameCharacter c ⊎ ((c ≡ b'.') ⊎ (c ≡ b'/'))

module _ (mac : Bytes → Bytes → Bytes) (digest : IsMac mac) where
  sign_user_id-lacks :
      (c : ℕ) (secret user : Bytes)
      → (c ≡ b'.') ⊎ (c ≡ b'/')
      → contains c (sign_user_id mac secret user) ≡ false
  unfolding sign_user_id
  sign_user_id-lacks c secret user e =
      contains-IsHexDigit c _ (hex_encode-IsHexDigit (mac secret user) (digest secret user)) e

  verify_sound :
      (secret passkey user : Bytes)
      → verify_passkey mac secret passkey ≡ verified user
      → (secret ≢ [])
        × (contains b'.' user ≡ false)
        × (passkey ≡ user ++ b'.' ∷ sign_user_id mac secret user)
  unfolding verify_passkey
  verify_sound secret passkey user h =
      let (spelled, lacks) = parts_sound (split b'.' passkey) refl (ground arith) in
      (λ e. ground (arith, ===_iff secret []), lacks, spelled)
    where
      parts_sound :
          (parts : List Bytes)
          → split b'.' passkey ≡ parts
          → check_parts mac secret parts ≡ verified user
          → (passkey ≡ user ++ b'.' ∷ sign_user_id mac secret user) × (contains b'.' user ≡ false)
      parts_sound [] e k = cc
      parts_sound (a ∷ []) e k = cc
      parts_sound (a ∷ b ∷ []) e k =
          let (spelled, lacks, _) = split_two b'.' passkey a b e in
          ground (arith, spelled, lacks, ===_iff b (sign_user_id mac secret a))
      parts_sound (a ∷ b ∷ c ∷ rest) e k = cc

  verify_complete :
      (secret user : Bytes)
      → secret ≢ []
      → contains b'.' user ≡ false
      → verify_passkey mac secret (user ++ b'.' ∷ sign_user_id mac secret user) ≡ verified user
  unfolding verify_passkey
  verify_complete secret user set h =
      let signature = sign_user_id mac secret user in
      let parts : split b'.' (user ++ b'.' ∷ signature) ≡ user ∷ signature ∷ [] =
        split-append b'.' user signature h
        ∙ ap (◌∷◌ user)
            (split-lacks b'.' signature (sign_user_id-lacks b'.' secret user (inl refl))) in
      rw parts (ground (arith, ===_iff secret [], ===_iff signature signature))

  -- A passkey is accepted for a user exactly when the tracker has a secret, the user's name holds no
  -- dot, and the passkey is the name, a dot and the name's signature under that secret.
  pub verify_passkey_iff :
      (secret passkey user : Bytes)
      → (verify_passkey mac secret passkey ≡ verified user) ↔ (
          (secret ≢ [])
          × (contains b'.' user ≡ false)
          × (passkey ≡ user ++ b'.' ∷ sign_user_id mac secret user))
  verify_passkey_iff secret passkey user = (
    verify_sound secret passkey user,
    λ p. ap (verify_passkey mac secret) p.2 ∙ verify_complete secret user p.0 p.1,
  )
