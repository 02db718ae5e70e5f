-- ===== src/Tracker/Auth.antt =====
-- internal/tracker/auth.go, and authenticatePasskey of internal/tracker/announce.go. HMAC-SHA256 is
-- the parameter `mac`: the digest of a message under a secret.
pub mod Passkeys
mod Tests
use weightless.Prelude.{
  ℕ, Bool, true, false, ◌&&◌, Option, none, some, List, [], ◌∷◌, ◌++◌, Bytes, codes, ◌===◌,
  if◌then◌else◌,
}
use weightless.Prelude.Hex.{hex_encode}
use weightless.Prelude.Split.{split, trim}

pub data AuthError : Type 0 where
  secret_not_set invalid_format invalid_signature : AuthError

pub data Verdict : Type 0 where
  verified : Bytes → Verdict
  refused : AuthError → Verdict

-- getSecret: the secret set for tests comes before the environment's.
pub get_secret : Bytes → Bytes → Bytes
get_secret test_secret env = if test_secret === [] then env else test_secret

-- What authenticatePasskey answers: the user (empty for an open tracker), or a failure.
pub data Access : Type 0 where
  granted : Bytes → Access
  unauthorized passkey_required : Access

module _ (mac : Bytes → Bytes → Bytes) where
  unfoldable pub sign_user_id : Bytes → Bytes → Bytes
  sign_user_id secret user = hex_encode (mac secret user)

  abbrev check_parts : Bytes → List Bytes → Verdict
  check_parts secret (user ∷ signature ∷ []) =
      if signature === sign_user_id secret user then verified user else refused invalid_signature
  check_parts secret parts = refused invalid_format

  unfoldable pub verify_passkey : Bytes → Bytes → Verdict
  verify_passkey secret passkey =
      if secret === [] then refused secret_not_set else check_parts secret (split b'.' passkey)

  abbrev access_of : Verdict → Access
  access_of (verified user) = granted user
  access_of (refused e) = unauthorized

  -- Without a passkey in the path the tracker is open exactly if the environment has no secret.
  abbrev open_access : Bytes → Access
  open_access env = if env === [] then granted [] else passkey_required

  abbrev path_access : Bytes → Bytes → List Bytes → Access
  path_access secret env (first ∷ passkey ∷ rest) =
      if first === codes "announce"
      then access_of (verify_passkey secret passkey)
      else open_access env
  path_access secret env parts = open_access env

  -- `env` is the environment's TRACKER_SECRET, `secret` what getSecret returns.
  unfoldable pub authenticate_passkey : Bytes → Bytes → Bytes → Access
  authenticate_passkey secret env path = path_access secret env (split b'/' (trim b'/' path))
