-- ===== src/Cli.antt =====
-- cmd/wl/main.go: the passkey that the command line tool puts into its announce URL.
use weightless.Prelude.{◌||◌, [], ◌∷◌, ◌++◌, Bytes, codes, ◌===◌, if◌then◌else◌}
use weightless.Prelude.Hex.{hex_encode}

module _ (mac : Bytes → Bytes → Bytes) where
  unfoldable pub sign_user_id : Bytes → Bytes → Bytes
  sign_user_id user secret = hex_encode (mac secret user)

  -- What buildAnnounceURL puts behind the tracker's root.
  unfoldable pub announce_path : Bytes → Bytes → Bytes
  announce_path user secret =
      if user === [] || secret === []
      then codes "/announce"
      else codes "/announce/" ++ (user ++ b'.' ∷ sign_user_id user secret)

  -- buildAnnounceURL, behind trackerRoot
  unfoldable pub build_announce_url : Bytes → Bytes → Bytes → Bytes
  unfolding announce_path
  build_announce_url root user secret = root ++ announce_path user secret
