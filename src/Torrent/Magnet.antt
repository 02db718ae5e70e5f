-- ===== src/Torrent/Magnet.antt =====
-- internal/torrent/magnet.go, and VerifyInfoHash of internal/torrent/parse.go. What url.ParseQuery
-- makes of the query, and the digests, are parameters.
pub mod Links
mod Tests
use weightless.Prelude.{
  ℕ, zero, suc, ◌+◌, Bool, true, false, not, ◌&&◌, ◌||◌, Option, none, some, List, [], ◌∷◌, Bytes,
  codes, ◌===◌, after_prefix, ltb, leb, ◌==◌, if◌then◌else◌, length, map,
}
use weightless.Prelude.Dict
use weightless.Prelude.Dict.{Dict}
use weightless.Prelude.Hex.{hex_encode}

pub record Magnet : Type 0 where
  pub info_hash_v1 : Bytes
  pub info_hash_v2 : Bytes
  pub display_name : Bytes
  pub trackers : List Bytes

abbrev pub best_hash : Magnet → Bytes
best_hash m = if m.info_hash_v2 === [] then m.info_hash_v1 else m.info_hash_v2

-- strings.ToLower, for ASCII
abbrev pub to_lower : ℕ → ℕ
to_lower c = if leb b'A' c && leb c b'Z' then c + 32 else c

abbrev pub all_hex : Bytes → Bool
all_hex [] = true
all_hex (c ∷ s) = not ((ltb c b'0' || ltb b'9' c) && (ltb c b'a' || ltb b'f' c)) && all_hex s

abbrev pub is_hex : Bytes → ℕ → Bool
is_hex s n = if not (length s == n) then false else all_hex s

-- A case of the switch, with the text behind its prefix
abbrev pub take_v1 : Bytes → Magnet → Option Magnet
take_v1 v1 m =
    if is_hex v1 40
    then some (record {
      info_hash_v1 = v1;
      info_hash_v2 = m.info_hash_v2;
      display_name = m.display_name;
      trackers = m.trackers;
    })
    else none

abbrev pub take_v2 : Bytes → Magnet → Option Magnet
take_v2 v2 m =
    if is_hex v2 64
    then some (record {
      info_hash_v1 = m.info_hash_v1;
      info_hash_v2 = v2;
      display_name = m.display_name;
      trackers = m.trackers;
    })
    else none

-- Other topics are passed over.
abbrev pub take_found : Option Bytes → Option Bytes → Magnet → Option Magnet
take_found (some v1) v2 m = take_v1 (map to_lower v1) m
take_found none (some v2) m = take_v2 (map to_lower v2) m
take_found none none m = some m

abbrev pub take_topic : Bytes → Magnet → Option Magnet
take_topic xt m =
    take_found (after_prefix (codes "urn:btih:") xt) (after_prefix (codes "urn:btmh:1220") xt) m

abbrev pub take_topics : List Bytes → Option Magnet → Option Magnet
take_topics xts none = none
take_topics [] (some m) = some m
take_topics (xt ∷ xts) (some m) = take_topics xts (take_topic xt m)

-- params["xt"], and params.Get("dn"): the first
abbrev pub values : Option (List Bytes) → List Bytes
values none = []
values (some vs) = vs

abbrev pub first_of : List Bytes → Bytes
first_of [] = []
first_of (v ∷ vs) = v

abbrev pub no_magnet : Magnet
no_magnet = record { info_hash_v1 = []; info_hash_v2 = []; display_name = []; trackers = [] }

abbrev pub finished : Dict (List Bytes) → Magnet → Magnet
finished params m = record {
  info_hash_v1 = m.info_hash_v1;
  info_hash_v2 = m.info_hash_v2;
  display_name = first_of (values (Dict.get (codes "dn") params));
  trackers = values (Dict.get (codes "tr") params);
}

abbrev pub completed : Dict (List Bytes) → Option Magnet → Option Magnet
completed params none = none
completed params (some m) =
    if m.info_hash_v1 === [] && m.info_hash_v2 === [] then none else some (finished params m)

module _ (parse_query : Bytes → Option (Dict (List Bytes))) where
  abbrev pub with_params : Option (Dict (List Bytes)) → Option Magnet
  with_params none = none
  with_params (some params) =
      completed params (take_topics (values (Dict.get (codes "xt") params)) (some no_magnet))

  abbrev pub with_query : Option Bytes → Option Magnet
  with_query none = none
  with_query (some query) = with_params (parse_query query)

  unfoldable pub parse_magnet : Bytes → Option Magnet
  parse_magnet uri = with_query (after_prefix (codes "magnet:?") uri)

module _ (sha1 sha256 : Bytes → Bytes) where
  -- Whether VerifyInfoHash returns no error.
  unfoldable pub verify_info_hash : Bytes → Magnet → Bool
  unfolding hex_encode
  verify_info_hash info mag =
      if not (mag.info_hash_v1 === []) && not (hex_encode (sha1 info) === mag.info_hash_v1)
      then false
      else if not (mag.info_hash_v2 === []) && not (hex_encode (sha256 info) === mag.info_hash_v2)
      then false
      else true
