-- ===== src/Tracker/Announce/Tests.antt =====
-- Runs of the announce handler.
use weightless.Prelude.{
  ◌≡◌, ◌≢◌, refl, true, false, not, ◌&&◌, none, some, [], ◌∷◌, Bytes, codes, ◌===◌, ===_refl, subst,
  sym, if◌then◌else◌, replicate, arith,
}
use weightless.Prelude.Decimal.{decimal}
use weightless.Prelude.Dict
use weightless.Prelude.HostPort.{split_host_port, join_host_port}
use weightless.Prelude.Word.{add64}
use weightless.Tracker.Auth.{authenticate_passkey, verify_passkey, sign_user_id, granted}
use weightless.Prelude.Split.{split}
use weightless.Prelude.Hex.{hex_encode, hex_digit}
use weightless.Tracker.Compact.{IpParser}
use weightless.Tracker.Recognize.{AnnounceParams, none_event, info_hash_hex}
use weightless.Tracker.State.{Peer, SwarmState, init, get_peer, swarm}
use weightless.Tracker.State.Usage.{up, amount}
use weightless.Tracker.Announce.{
  Env, row, failed, failure, not_authorized, execute_announce, handle_announce, is_stopped,
}
use weightless.Tracker.Announce.Effects.{
  IsServed, handle_announce-refused, execute_announce-get_peer,
}
use weightless.Tracker.Announce.Credit.{IsCountedEntry, progress, execute_announce-amount}
use weightless.Tracker.Announce.Strangers.{handle_announce-amount}

abbrev params : AnnounceParams
params = record {
  info_hash = 171 ∷ replicate 31 0;
  info_hash_len = 1;
  peer_id = codes "p";
  port = 6881;
  uploaded = 500;
  downloaded = 20;
  left = 12;
  event = none_event;
  num_want = none;
  compact = true;
}

abbrev no_parser : IpParser
no_parser = record { to4 = λ s. none; to16 = λ s. none }

abbrev env : Env
env = record {
  open_tracker = false;
  max_peers = 50;
  blocklist = λ hash. failed;
  registry = λ hash. row;
  now = 77;
  visit = λ m. m;
  ip = no_parser;
}

abbrev remote : Bytes
remote = codes "10.0.0.1:50000"

served : IsServed env remote (codes "10.0.0.1") params
served =
    unfold split_host_port in
    record { not_blocked = refl; known = refl; remote_port = codes "50000"; address = refl }

execute_announce-get_peer_example :
    get_peer (codes "ab") (codes "p") (execute_announce env remote (codes "ann") params init).state
    ≡ (if info_hash_hex params === codes "ab" && params.peer_id === codes "p"
        then (if is_stopped params.event
            then none
            else some (record {
              addr = join_host_port (codes "10.0.0.1") (decimal 6881);
              updated_at = 77;
              left = 12;
              downloaded = 20;
              uploaded = 500;
            }))
        else get_peer (codes "ab") (codes "p") init)
execute_announce-get_peer_example =
    execute_announce-get_peer env remote (codes "10.0.0.1") (codes "ann") params init (codes "ab")
      (codes "p") served

abbrev peer : Peer
peer = record { addr = remote; updated_at = 5; left = 30; downloaded = 25; uploaded = 400 }

abbrev known : SwarmState
known = record init { peers = (info_hash_hex params, (codes "p", peer) ∷ []) ∷ [] }

known_peer : get_peer (info_hash_hex params) (codes "p") known ≡ some peer
unfolding get_peer swarm Dict.get
known_peer = rw (===_refl (info_hash_hex params)) refl

execute_announce-amount_example :
    amount up
      (Dict.get (codes "ann") (execute_announce env remote (codes "ann") params known).state.users)
    ≡ (if not (is_stopped params.event) && not (codes "ann" === []) && codes "ann" === codes "ann"
        then add64
            (amount up (Dict.get (codes "ann") known.users))
            (progress up params (get_peer (info_hash_hex params) (codes "p") known))
        else amount up (Dict.get (codes "ann") known.users))
execute_announce-amount_example =
    execute_announce-amount env remote (codes "10.0.0.1") (codes "ann") params known up
      (codes "ann") served (record { uploaded = omega arith; downloaded = omega arith })
      (subst IsCountedEntry (sym known_peer) (omega arith, omega arith))
      (unfold Dict.get in omega arith)

abbrev digest : Bytes → Bytes → Bytes
digest secret message = 7 ∷ []

refused :
    (handle_announce digest
      (codes "key")
      (codes "key")
      env
      remote
      (codes "/announce/ann.00")
      []
      known).reply
    ≡ failure not_authorized
unfolding handle_announce authenticate_passkey verify_passkey sign_user_id split hex_encode
    hex_digit
refused = refl

handle_announce-refused_example :
    ((handle_announce digest
        (codes "key")
        (codes "key")
        env
        remote
        (codes "/announce/ann.00")
        []
        known).state
      ≡ known)
    × ((handle_announce digest
          (codes "key")
          (codes "key")
          env
          remote
          (codes "/announce/ann.00")
          []
          known).counted
        ≡ none)
handle_announce-refused_example =
    handle_announce-refused digest (codes "key") (codes "key") env remote (codes "/announce/ann.00")
      [] known not_authorized refused

not_granted :
    authenticate_passkey digest (codes "key") (codes "key") (codes "/announce/ann.00")
    ≢ granted (codes "ann")
unfolding authenticate_passkey verify_passkey sign_user_id split hex_encode hex_digit
not_granted = cc

handle_announce-amount_example :
    amount up (
      Dict.get
        (codes "ann")
        (handle_announce digest
          (codes "key")
          (codes "key")
          env
          remote
          (codes "/announce/ann.00")
          []
          known).state.users)
    ≡ amount up (Dict.get (codes "ann") known.users)
handle_announce-amount_example =
    handle_announce-amount digest (codes "key") (codes "key") env remote (codes "/announce/ann.00")
      [] known up (codes "ann") not_granted
