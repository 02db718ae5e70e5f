-- ===== src/Tracker/Announce.antt =====
-- HandleAnnounce and executeAnnounce of internal/tracker/announce.go. The database is a parameter: an
-- answer for each query, and the update of a registry row is an output. The encoding of the answer
-- into bencode is a library's.
pub mod Strangers
pub mod Effects
pub mod Credit
mod Tests
use weightless.Prelude.{
  ℕ, Bool, true, false, not, ◌&&◌, ◌||◌, Option, none, some, List, [], ◌∷◌, ◌++◌, Bytes, ◌===◌, ltb,
  ◌==◌, if◌then◌else◌,
}
use weightless.Prelude.Decimal.{decimal}
use weightless.Prelude.Dict.{Dict}
use weightless.Prelude.HostPort.{split_host_port, join_host_port}
use weightless.Prelude.Word.{sub64, is_negative}
use weightless.Tracker.Auth
use weightless.Tracker.Auth.{Access, granted, unauthorized, passkey_required, authenticate_passkey}
use weightless.Tracker.Compact.{IpParser, pack_peers}
use weightless.Tracker.Query.{Query}
use weightless.Tracker.Recognize
use weightless.Tracker.Recognize.{
  PeerEvent, stopped, completed, started, paused, none_event, AnnounceParams, Reason,
  recognize_announce, info_hash_hex,
}
use weightless.Tracker.State.{
  Peer, UserUsage, SwarmState, track_usage, get_peer, update_peer, remove_peer, get_peers,
  get_counts,
}

-- A query for one row: QueryRow and Scan.
pub data Lookup : Type 0 where
  row no_rows failed : Lookup

abbrev pub is_row : Lookup → Bool
is_row row = true
is_row no_rows = false
is_row failed = false

-- What an announce reads outside the state: the settings, the database and the clock. `visit` is the
-- order in which Go visits a swarm.
pub record Env : Type 0 where
  pub open_tracker : Bool
  pub max_peers : ℕ
  pub blocklist : Bytes → Lookup
  pub registry : Bytes → Lookup
  pub now : ℕ
  pub visit : Dict Peer → Dict Peer
  pub ip : IpParser

pub data Refusal : Type 0 where
  not_authorized passkey_missing : Refusal
  invalid_announce : Reason → Refusal
  blocked unregistered invalid_address : Refusal

-- The answer's keys; `peers6` is left out if it is empty.
pub record Answer : Type 0 where
  pub interval : ℕ
  pub complete : ℕ
  pub incomplete : ℕ
  pub peers : Bytes
  pub peers6 : Option Bytes

pub data Reply : Type 0 where
  failure : Refusal → Reply
  answer : Answer → Reply

-- The state that is left, the hash whose completions the database was told to count up, the reply.
pub record Done : Type 0 where
  pub state : SwarmState
  pub counted : Option Bytes
  pub reply : Reply

abbrev pub refuse : Refusal → SwarmState → Done
refuse e s = record { state = s; counted = none; reply = failure e }

-- A difference of two counters, 0 if it is negative.
abbrev pub clamped : ℕ → ℕ
clamped d = if is_negative d then 0 else d

abbrev pub delta_of : AnnounceParams → Peer → UserUsage
delta_of p old = record {
  uploaded = clamped (sub64 p.uploaded old.uploaded);
  downloaded = clamped (sub64 p.downloaded old.downloaded);
}

abbrev pub credit_since : Bytes → AnnounceParams → Option Peer → SwarmState → SwarmState
credit_since user p none s = s
credit_since user p (some old) s =
    let delta = delta_of p old in
    if ltb 0 delta.uploaded || ltb 0 delta.downloaded then track_usage user delta s else s

-- The session's progress goes to the user, if there is one and the peer is known.
pub credit_user : Bytes → AnnounceParams → SwarmState → SwarmState
credit_user user p s =
    if user === [] then s else credit_since user p (get_peer (info_hash_hex p) p.peer_id s) s

abbrev pub is_stopped : PeerEvent → Bool
is_stopped stopped = true
is_stopped started = false
is_stopped completed = false
is_stopped paused = false
is_stopped none_event = false

abbrev pub is_completed : PeerEvent → Bool
is_completed completed = true
is_completed started = false
is_completed stopped = false
is_completed paused = false
is_completed none_event = false

abbrev pub peer_of : Bytes → ℕ → AnnounceParams → Peer
peer_of addr now p = record {
  addr = addr;
  updated_at = now;
  left = p.left;
  downloaded = p.downloaded;
  uploaded = p.uploaded;
}

pub record_peer : Bytes → Bytes → ℕ → AnnounceParams → SwarmState → SwarmState
unfolding credit_user
record_peer user addr now p s =
    if is_stopped p.event
    then remove_peer (info_hash_hex p) p.peer_id s
    else update_peer (info_hash_hex p) p.peer_id (peer_of addr now p) (credit_user user p s)

-- min(numwant, MaxPeers), with no numwant for -1
abbrev pub peer_limit : ℕ → Option ℕ → ℕ
peer_limit max none = max
peer_limit max (some n) = if ltb n max then n else max

abbrev pub optional : Bytes → Option Bytes
optional [] = none
optional (c ∷ s) = some (c ∷ s)

pub answer_from : Env → AnnounceParams → SwarmState → Answer
answer_from env p s =
    let hash = info_hash_hex p in
    let addrs = get_peers env.visit hash p.peer_id (peer_limit env.max_peers p.num_want) s in
    let counts = get_counts env.visit hash s in
    let packed = pack_peers env.ip addrs in
    record {
      interval = 1800;
      complete = counts.0;
      incomplete = counts.1;
      peers = packed.0;
      peers6 = optional packed.1;
    }

abbrev pub serve : Env → Bytes → AnnounceParams → Option (Bytes × Bytes) → SwarmState → Done
serve env user p none s = refuse invalid_address s
serve env user p (some (client_ip, port)) s =
    let s' = record_peer user (join_host_port client_ip (decimal p.port)) env.now p s in
    record {
      state = s';
      counted = if is_completed p.event then some (info_hash_hex p) else none;
      reply = answer (answer_from env p s');
    }

-- A blocklist query that fails does not block; a registry query that fails refuses.
unfoldable pub execute_announce : Env → Bytes → Bytes → AnnounceParams → SwarmState → Done
unfolding record_peer answer_from
execute_announce env remote_addr user p s =
    let hash = info_hash_hex p in
    if is_row (env.blocklist hash)
    then refuse blocked s
    else if not env.open_tracker && not (is_row (env.registry hash))
    then refuse unregistered s
    else serve env user p (split_host_port remote_addr) s

abbrev pub handle_params : Env → Bytes → Bytes → Recognize.Result AnnounceParams → SwarmState → Done
handle_params env remote_addr user (Recognize.err e) s = refuse (invalid_announce e) s
handle_params env remote_addr user (Recognize.ok p) s = execute_announce env remote_addr user p s

abbrev pub handle_access : Env → Bytes → Access → Query → SwarmState → Done
handle_access env remote_addr unauthorized q s = refuse not_authorized s
handle_access env remote_addr passkey_required q s = refuse passkey_missing s
handle_access env remote_addr (granted user) q s =
    handle_params env remote_addr user (recognize_announce q) s

-- The whole handler, with what authenticatePasskey answers for the path.
pub handle_announce :
    (Bytes → Bytes → Bytes) → Bytes → Bytes → Env → Bytes → Bytes → Query → SwarmState → Done
handle_announce mac secret env_secret env remote_addr path q s =
    handle_access env remote_addr (authenticate_passkey mac secret env_secret path) q s
