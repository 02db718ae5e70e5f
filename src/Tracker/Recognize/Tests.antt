-- ===== src/Tracker/Recognize/Tests.antt =====
-- Runs of the recognizer.
use weightless.Prelude.{◌≡◌, ◌↔◌, refl, true, none, [], ◌∷◌, ◌++◌, codes, replicate}
use weightless.Prelude.Dict
use weightless.Prelude.Hex.{hex_encode}
use weightless.Prelude.Strconv.{parse_uint, parse_int}
use weightless.Tracker.Query
use weightless.Tracker.Query.{Query}
use weightless.Tracker.Recognize.{
  AnnounceParams, ok, err, none_event, missing_port, recognize_announce, info_hash_hex,
  recognize_hash, recognize_peer_id, recognize_port, recognize_count, recognize_event,
  recognize_num_want, recognize_compact,
}
use weightless.Tracker.Recognize.Bounds.{IsBounded, recognize_announce-IsBounded}
use weightless.Tracker.Recognize.Hash.{info_hash_hex-recognize_announce, same_swarm_iff}

abbrev without_port : Query
without_port =
    (codes "info_hash", replicate 20 171 ∷ [])
    ∷ (codes "peer_id", codes "-WL0001-abcdefghijkl" ∷ [])
    ∷ []

abbrev request : Query
request = (codes "port", codes "6881" ∷ []) ∷ (codes "left", codes "12" ∷ []) ∷ without_port

abbrev params : AnnounceParams
params = record {
  info_hash = replicate 20 171 ++ replicate 12 0;
  info_hash_len = 20;
  peer_id = codes "-WL0001-abcdefghijkl";
  port = 6881;
  uploaded = 0;
  downloaded = 0;
  left = 12;
  event = none_event;
  num_want = none;
  compact = true;
}

recognized : recognize_announce request ≡ ok params
unfolding recognize_announce recognize_hash recognize_peer_id recognize_port recognize_count
    recognize_event recognize_num_want recognize_compact Query.get Dict.get parse_uint parse_int
recognized = refl

port_missing : recognize_announce without_port ≡ err missing_port
unfolding recognize_announce recognize_hash recognize_peer_id recognize_port Query.get Dict.get
port_missing = refl

recognize_announce-IsBounded_example : IsBounded params
recognize_announce-IsBounded_example = recognize_announce-IsBounded request params recognized

info_hash_hex-recognize_announce_example :
    info_hash_hex params ≡ hex_encode (Query.get (codes "info_hash") request)
info_hash_hex-recognize_announce_example =
    info_hash_hex-recognize_announce request params recognized

same_swarm_iff_example :
    (info_hash_hex params ≡ info_hash_hex params)
    ↔ (Query.get (codes "info_hash") request ≡ Query.get (codes "info_hash") request)
same_swarm_iff_example = same_swarm_iff request request params params recognized recognized
