-- ===== src/Tracker/Registry/Tests.antt =====
-- A takedown by the v1 hash of a row, whose v2 swarm has a peer.
use weightless.Prelude.{◌≡◌, refl, true, false, none, [], ◌∷◌, codes, ◌===◌, replicate, inl, inr}
use weightless.Prelude.Dict
use weightless.Prelude.Hex.{hex_encode, hex_digit}
use weightless.Tracker.State.{Peer, SwarmState}
use weightless.Tracker.Compact.{IpParser}
use weightless.Tracker.Recognize.{AnnounceParams, none_event, info_hash_hex}
use weightless.Tracker.Announce.{Env, row, no_rows, blocked, refuse, execute_announce}
use weightless.Tracker.Registry.{
  Database, Faults, deleted, handle_delete, take_down, blocklist_query, sanitize_filename,
}
use weightless.Tracker.Registry.Takedown.{execute_announce-handle_delete}

abbrev params : AnnounceParams
params = record {
  info_hash = 171 ∷ replicate 31 0;
  info_hash_len = 1;
  peer_id = codes "p";
  port = 6881;
  uploaded = 0;
  downloaded = 0;
  left = 12;
  event = none_event;
  num_want = none;
  compact = true;
}

abbrev no_parser : IpParser
no_parser = record { to4 = λ s. none; to16 = λ s. none }

abbrev env : Env
env = record {
  open_tracker = false;
  max_peers = 50;
  blocklist = λ hash. no_rows;
  registry = λ hash. row;
  now = 77;
  visit = λ m. m;
  ip = no_parser;
}

abbrev db : Database
db = record {
  registry = record { info_hash = codes "ab"; v1_info_hash = codes "cd" } ∷ [];
  peers = codes "ab" ∷ [];
  blocklist = [];
}

abbrev no_faults : Faults
no_faults = record {
  lookup_fails = false;
  delete_fails = false;
  peers_fail = λ h. false;
  block_fails = λ h. false;
}

abbrev peer : Peer
peer = record { addr = codes "10.0.0.1:1"; updated_at = 1; left = 0; downloaded = 0; uploaded = 0 }

abbrev swarms : SwarmState
swarms = record { peers = (codes "ab", (codes "p", peer) ∷ []) ∷ []; users = []; announces = 0 }

taken_down :
    (handle_delete (codes "k") (codes "k") (codes "cd") no_faults db swarms).response ≡ deleted
unfolding handle_delete take_down
taken_down = refl

left_behind :
    (handle_delete (codes "k") (codes "k") (codes "cd") no_faults db swarms).db
    ≡ record { registry = []; peers = []; blocklist = codes "ab" ∷ codes "cd" ∷ [] }
unfolding handle_delete take_down
left_behind = refl

filename : sanitize_filename (codes "a\"b") ≡ codes "ab"
filename = refl

hash_there : (info_hash_hex params === []) ≡ false
unfolding info_hash_hex hex_encode hex_digit
hash_there = refl

hash_is : info_hash_hex params ≡ codes "ab"
unfolding info_hash_hex hex_encode hex_digit
hash_is = refl

execute_announce-handle_delete_example :
    (Dict.get
        (info_hash_hex params)
        (handle_delete (codes "k") (codes "k") (codes "cd") no_faults db swarms).state.peers
      ≡ none)
    × (execute_announce
          (record env {
            blocklist =
                blocklist_query
                  (handle_delete (codes "k") (codes "k") (codes "cd") no_faults db swarms).db;
          })
          (codes "10.0.0.1:5")
          []
          params
          swarms
        ≡ refuse blocked swarms)
execute_announce-handle_delete_example =
    execute_announce-handle_delete (codes "k") (codes "k") (codes "cd") no_faults db swarms env
      (codes "10.0.0.1:5") [] params swarms hash_there (inr (inl hash_is)) taken_down
