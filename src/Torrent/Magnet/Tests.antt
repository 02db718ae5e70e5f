-- ===== src/Torrent/Magnet/Tests.antt =====
-- A link with a v1 hash, and a digest that it is the text of.
use weightless.Prelude.{
  ◌≡◌, ◌⊎◌, refl, true, none, some, Option, List, [], ◌∷◌, Bytes, codes, replicate,
}
use weightless.Prelude.Dict
use weightless.Prelude.Dict.{Dict}
use weightless.Prelude.Hex.{hex_encode, hex_digit}
use weightless.Torrent.Magnet.{Magnet, parse_magnet, verify_info_hash}
use weightless.Torrent.Magnet.Links.{IsNamed, parse_magnet-IsNamed, verify_info_hash-agrees}

abbrev topic : Bytes
topic = codes "urn:btih:ABABABABABABABABABABABABABABABABABABABAB"

abbrev digest : Bytes → Bytes
digest s = replicate 20 171

abbrev query_of : Bytes → Option (Dict (List Bytes))
query_of query = some ((codes "xt", topic ∷ []) ∷ (codes "dn", codes "n" ∷ []) ∷ [])

abbrev link : Magnet
link = record {
  info_hash_v1 = codes "abababababababababababababababababababab";
  info_hash_v2 = [];
  display_name = codes "n";
  trackers = [];
}

parsed_link : parse_magnet query_of (codes "magnet:?q") ≡ some link
unfolding parse_magnet Dict.get
parsed_link = refl

unprefixed : parse_magnet query_of (codes "http:?q") ≡ none
unfolding parse_magnet
unprefixed = refl

verified : verify_info_hash digest digest (1 ∷ []) link ≡ true
unfolding verify_info_hash hex_encode hex_digit
verified = refl

also_verified : verify_info_hash digest digest (2 ∷ []) link ≡ true
unfolding verify_info_hash hex_encode hex_digit
also_verified = refl

parse_magnet-IsNamed_example : IsNamed link
parse_magnet-IsNamed_example = parse_magnet-IsNamed query_of (codes "magnet:?q") link parsed_link

verify_info_hash-agrees_example :
    (digest (1 ∷ []) ≡ digest (2 ∷ [])) ⊎ (digest (1 ∷ []) ≡ digest (2 ∷ []))
verify_info_hash-agrees_example =
    verify_info_hash-agrees digest digest query_of (codes "magnet:?q") link (1 ∷ []) (2 ∷ [])
      parsed_link verified also_verified
