-- ===== src/Tracker/Recognize.antt =====
-- internal/tracker/recognize.go: the recognizer of announce requests. The reason of a refusal is
-- data; the source's texts are in the constructors' names.
pub mod Bounds
pub mod Hash
mod Tests
use weightless.Prelude.{
  ℕ, ◌+◌, ◌-◌, Bool, true, false, ◌||◌, Option, none, some, List, [], ◌∷◌, ◌++◌, Bytes, codes,
  ◌===◌, ltb, leb, ◌==◌, if◌then◌else◌, length, take, replicate,
}
use weightless.Prelude.Hex.{hex_encode}
use weightless.Prelude.Strconv.{parse_uint, parse_int}
use weightless.Prelude.Word.{is_negative}
use weightless.Tracker.Query
use weightless.Tracker.Query.{Query}

pub data PeerEvent : Type 0 where
  none_event started stopped completed paused : PeerEvent

-- `num_want` is `none` where the source has -1.
pub record AnnounceParams : Type 0 where
  pub info_hash : Bytes
  pub info_hash_len : ℕ
  pub peer_id : Bytes
  pub port : ℕ
  pub uploaded : ℕ
  pub downloaded : ℕ
  pub left : ℕ
  pub event : PeerEvent
  pub num_want : Option ℕ
  pub compact : Bool

abbrev pub max_num_want : ℕ
max_num_want = 1000

pub data Reason : Type 0 where
  missing_info_hash missing_peer_id missing_port invalid_port : Reason
  info_hash_length peer_id_length : ℕ → Reason
  invalid_uploaded invalid_downloaded invalid_left invalid_event invalid_numwant invalid_compact :
      Reason

pub data Result {ℓ} (A : Type ℓ) : Type ℓ where
  err : Reason → Result A
  ok : A → Result A

infixl 5 ◌>>=◌
abbrev pub ◌>>=◌ {ℓ μ} : {A : Type ℓ} {B : Type μ} (m : Result A) (k : A → Result B) → Result B
err reason >>= k = err reason
ok a >>= k = k a

-- info_hash: 20 bytes (v1) or 32 bytes (v2)
unfoldable pub recognize_hash : Bytes → Result Bytes
recognize_hash raw =
    if raw === []
    then err missing_info_hash
    else if length raw == 20 || length raw == 32
    then ok raw
    else err (info_hash_length (length raw))

unfoldable pub recognize_peer_id : Bytes → Result Bytes
recognize_peer_id raw =
    if raw === []
    then err missing_peer_id
    else if length raw == 20
    then ok raw
    else err (peer_id_length (length raw))

-- A failed parse and the number 0 are refused alike.
abbrev pub checked_port : Option ℕ → Result ℕ
checked_port none = err invalid_port
checked_port (some n) = if n == 0 then err invalid_port else ok n

unfoldable pub recognize_port : Bytes → Result ℕ
recognize_port text = if text === [] then err missing_port else checked_port (parse_uint 65535 text)

abbrev pub checked_count : Reason → Option ℕ → Result ℕ
checked_count e none = err e
checked_count e (some n) = if is_negative n then err e else ok n

-- uploaded, downloaded, left: absent is 0
unfoldable pub recognize_count : Reason → Bytes → Result ℕ
recognize_count e text = if text === [] then ok 0 else checked_count e (parse_int text)

unfoldable pub recognize_event : Bytes → Result PeerEvent
recognize_event text =
    if text === []
    then ok none_event
    else if text === codes "started"
    then ok started
    else if text === codes "stopped"
    then ok stopped
    else if text === codes "completed"
    then ok completed
    else if text === codes "paused"
    then ok paused
    else err invalid_event

abbrev pub checked_num_want : Option ℕ → Result (Option ℕ)
checked_num_want none = err invalid_numwant
checked_num_want (some n) =
    if is_negative n || ltb max_num_want n then err invalid_numwant else ok (some n)

unfoldable pub recognize_num_want : Bytes → Result (Option ℕ)
recognize_num_want text = if text === [] then ok none else checked_num_want (parse_int text)

unfoldable pub recognize_compact : Bytes → Result Bool
recognize_compact text =
    if text === []
    then ok true
    else if text === codes "0"
    then ok false
    else if text === codes "1"
    then ok true
    else err invalid_compact

-- copy into a [32]byte
abbrev pub padded : Bytes → Bytes
padded raw = raw ++ replicate (32 - length raw) 0

unfoldable pub recognize_announce : Query → Result AnnounceParams
recognize_announce q = do
  raw ← recognize_hash (Query.get (codes "info_hash") q)
  peer ← recognize_peer_id (Query.get (codes "peer_id") q)
  port ← recognize_port (Query.get (codes "port") q)
  uploaded ← recognize_count invalid_uploaded (Query.get (codes "uploaded") q)
  downloaded ← recognize_count invalid_downloaded (Query.get (codes "downloaded") q)
  left ← recognize_count invalid_left (Query.get (codes "left") q)
  event ← recognize_event (Query.get (codes "event") q)
  num_want ← recognize_num_want (Query.get (codes "numwant") q)
  compact ← recognize_compact (Query.get (codes "compact") q)
  ok (record {
    info_hash = padded raw;
    info_hash_len = length raw;
    peer_id = peer;
    port = port;
    uploaded = uploaded;
    downloaded = downloaded;
    left = left;
    event = event;
    num_want = num_want;
    compact = compact;
  })

-- InfoHashHex: the lowercase text of the bytes that were sent.
unfoldable pub info_hash_hex : AnnounceParams → Bytes
info_hash_hex p = hex_encode (take p.info_hash_len p.info_hash)
