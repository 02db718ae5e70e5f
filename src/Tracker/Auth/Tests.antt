-- ===== src/Tracker/Auth/Tests.antt =====
-- Runs of the passkey check, with a digest that stands for HMAC-SHA256.
use weightless.Prelude.{ℕ, ◌++◌, ◌+◌, ◌%◌, ◌≡◌, ◌≢◌, ◌↔◌, false, [], ◌∷◌, Bytes, codes, arith}
use weightless.Prelude.Split.{contains}
use weightless.Tracker.Auth.{verified, verify_passkey, sign_user_id}
use weightless.Tracker.Auth.Passkeys.{IsMac, verify_passkey_iff}

abbrev sum : Bytes → ℕ
sum [] = 0
sum (c ∷ s) = c + sum s

abbrev digest : Bytes → Bytes → Bytes
digest secret message = sum secret % 256 ∷ sum message % 256 ∷ []

digest-IsMac : IsMac digest
digest-IsMac secret message = (omega arith, (omega arith, tt))

named : codes "ann" ≢ []
named = cc

verify_passkey_iff_example :
    (verify_passkey digest (codes "key") (codes "ann.4935") ≡ verified (codes "ann")) ↔ (
      (codes "key" ≢ [])
      × (contains b'.' (codes "ann") ≡ false)
      × (codes "ann.4935" ≡ codes "ann" ++ b'.' ∷ sign_user_id digest (codes "key") (codes "ann")))
verify_passkey_iff_example =
    verify_passkey_iff digest digest-IsMac (codes "key") (codes "ann.4935") (codes "ann")

abbrev root : Bytes
root = codes "https://tracker.example"
