-- ===== src/Torrent/Magnet/Links.antt =====
-- What an accepted magnet link names, and what verifying an info dictionary against it means.
use weightless.Prelude.{
  ℕ, ◌≤◌, ◌≡◌, ◌≢◌, ◌⊎◌, ◌↔◌, refl, sym, ◌∙◌, true, not, ◌&&◌, ◌||◌, Option, none, some, List, [],
  ◌∷◌, Bytes, codes, ◌===◌, ===_iff, after_prefix, ltb, length, map, All, arith, inl, inr,
  Bool-cases, subst,
}
use weightless.Prelude.Dict
use weightless.Prelude.Dict.{Dict}
use weightless.Prelude.Hex.{hex_encode, hex_encode-injective}
use weightless.Torrent.Magnet.{
  Magnet, to_lower, all_hex, is_hex, take_v1, take_v2, take_found, take_topic, take_topics, values,
  no_magnet, finished, completed, with_params, with_query, parse_magnet, verify_info_hash,
}

-- A digit, or a letter from a to f
abbrev pub IsHexDigit : ℕ → Type 0
IsHexDigit c = ((b'0' ≤ c) × (c ≤ b'9')) ⊎ ((b'a' ≤ c) × (c ≤ b'f'))

all_hex-All : (s : Bytes) → all_hex s ≡ true → All IsHexDigit s
all_hex-All [] h = tt
all_hex-All (c ∷ s) h =
    let here : not ((ltb c b'0' || ltb b'9' c) && (ltb c b'a' || ltb b'f' c)) ≡ true =
      ground (arith, h) in
    let there : all_hex s ≡ true = ground (arith, h) in
    (
      elim (Bool-cases (ltb c b'0' || ltb b'9' c)) [
        | inl k ↦ inr (ground (arith, here, k), ground (arith, here, k))
        | inr k ↦ inl (ground (arith, k), ground (arith, k))
      ],
      all_hex-All s there,
    )

-- Absent, or the hexadecimal text of n / 2 bytes
abbrev pub IsHash : ℕ → Bytes → Type 0
IsHash n s = (s ≡ []) ⊎ ((length s ≡ n) × All IsHexDigit s)

abbrev HasHashes : Magnet → Type 0
HasHashes m = IsHash 40 m.info_hash_v1 × IsHash 64 m.info_hash_v2

AllHashes : Option Magnet → Type 0
AllHashes none = Unit
AllHashes (some m) = HasHashes m

is_hex-IsHash : (n : ℕ) (s : Bytes) → is_hex s n ≡ true → IsHash n s
is_hex-IsHash n s h =
    let size : length s ≡ n = ground (arith, h) in
    let digits : all_hex s ≡ true = ground (arith, h) in inr (size, all_hex-All s digits)

take_v1-AllHashes : (v1 : Bytes) (m : Magnet) → HasHashes m → AllHashes (take_v1 v1 m)
unfolding AllHashes
take_v1-AllHashes v1 m h = elim (Bool-cases (is_hex v1 40)) [
  | inl k ↦ rw k (is_hex-IsHash 40 v1 k, h.1)
  | inr k ↦ rw k tt
]

take_v2-AllHashes : (v2 : Bytes) (m : Magnet) → HasHashes m → AllHashes (take_v2 v2 m)
unfolding AllHashes
take_v2-AllHashes v2 m h = elim (Bool-cases (is_hex v2 64)) [
  | inl k ↦ rw k (h.0, is_hex-IsHash 64 v2 k)
  | inr k ↦ rw k tt
]

take_found-AllHashes :
    (v1 v2 : Option Bytes) (m : Magnet) → HasHashes m → AllHashes (take_found v1 v2 m)
unfolding AllHashes
take_found-AllHashes (some v1) v2 m h = take_v1-AllHashes (map to_lower v1) m h
take_found-AllHashes none (some v2) m h = take_v2-AllHashes (map to_lower v2) m h
take_found-AllHashes none none m h = h

take_topics-AllHashes :
    (xts : List Bytes) (m : Option Magnet) → AllHashes m → AllHashes (take_topics xts m)
unfolding AllHashes
take_topics-AllHashes [] none h = tt
take_topics-AllHashes (xt ∷ xts) none h = tt
take_topics-AllHashes [] (some m) h = h
take_topics-AllHashes (xt ∷ xts) (some m) h = take_topics-AllHashes xts (take_topic xt m) (
    take_found-AllHashes (after_prefix (codes "urn:btih:") xt)
      (after_prefix (codes "urn:btmh:1220") xt) m h)

pub record IsNamed (mag : Magnet) : Type 0 where
  pub v1 : IsHash 40 mag.info_hash_v1
  pub v2 : IsHash 64 mag.info_hash_v2
  pub named : (mag.info_hash_v1 ≢ []) ⊎ (mag.info_hash_v2 ≢ [])

some_injective : {a b : Magnet} → some a ≡ some b → a ≡ b
some_injective h = cc

completed-IsNamed :
    (params : Dict (List Bytes)) (m : Option Magnet) (mag : Magnet)
    → AllHashes m
    → completed params m ≡ some mag
    → IsNamed mag
unfolding AllHashes
completed-IsNamed params none mag h e = cc
completed-IsNamed params (some m) mag h e =
    elim (Bool-cases (m.info_hash_v1 === [] && m.info_hash_v2 === [])) [
      | inl k ↦ ground (arith, e, k)
      | inr k ↦
          let done : completed params (some m) ≡ some (finished params m) = rw k refl in
          let same = some_injective (sym done ∙ e) in
          subst IsNamed same (record {
            v1 = h.0;
            v2 = h.1;
            named = elim (Bool-cases (m.info_hash_v1 === [])) [
              | inl none1 ↦ inr (ground (arith, none1, k, ===_iff m.info_hash_v2 []))
              | inr some1 ↦ inl (ground (arith, some1, ===_iff m.info_hash_v1 []))
            ];
          })
    ]

-- An accepted magnet link names at least one hash; a v1 hash that it names is 40 characters and a v2 hash 64, all of them digits and letters from a to f.
pub parse_magnet-IsNamed :
    (parse_query : Bytes → Option (Dict (List Bytes))) (uri : Bytes) (mag : Magnet)
    → parse_magnet parse_query uri ≡ some mag
    → IsNamed mag
unfolding parse_magnet AllHashes
parse_magnet-IsNamed parse_query uri mag h = from_query (after_prefix (codes "magnet:?") uri) h
  where
    from_params :
        (params : Option (Dict (List Bytes)))
        → with_params parse_query params ≡ some mag
        → IsNamed mag
    from_params none e = cc
    from_params (some params) e =
        let topics = values (Dict.get (codes "xt") params) in
        completed-IsNamed params (take_topics topics (some no_magnet)) mag
          (take_topics-AllHashes topics (some no_magnet) (inl refl, inl refl)) e

    from_query : (query : Option Bytes) → with_query parse_query query ≡ some mag → IsNamed mag
    from_query none e = cc
    from_query (some query) e = from_params (parse_query query) e

-- What VerifyInfoHash accepts: every hash that the link names is the text of the digest of its kind.
pub verify_info_hash_iff :
    (sha1 sha256 : Bytes → Bytes) (info : Bytes) (mag : Magnet)
    → (verify_info_hash sha1 sha256 info mag ≡ true) ↔ (
        ((mag.info_hash_v1 ≡ []) ⊎ (hex_encode (sha1 info) ≡ mag.info_hash_v1))
        × ((mag.info_hash_v2 ≡ []) ⊎ (hex_encode (sha256 info) ≡ mag.info_hash_v2)))
unfolding verify_info_hash
verify_info_hash_iff sha1 sha256 info mag =
    let empty1 = ===_iff mag.info_hash_v1 [] in
    let empty2 = ===_iff mag.info_hash_v2 [] in
    let same1 = ===_iff (hex_encode (sha1 info)) mag.info_hash_v1 in
    let same2 = ===_iff (hex_encode (sha256 info)) mag.info_hash_v2 in
    ground (arith, empty1, empty2, same1, same2)

agreed :
    (x y h : Bytes)
    → h ≢ []
    → ((h ≡ []) ⊎ (hex_encode x ≡ h))
    → ((h ≡ []) ⊎ (hex_encode y ≡ h))
    → x ≡ y
agreed x y h some_hash (inl e) k = absurd (some_hash e)
agreed x y h some_hash (inr e) (inl k) = absurd (some_hash k)
agreed x y h some_hash (inr e) (inr k) = hex_encode-injective x y (e ∙ sym k)

-- Two info dictionaries that are verified against one accepted magnet link have the same SHA-1 or the same SHA-256 digest.
pub verify_info_hash-agrees :
    (sha1 sha256 : Bytes → Bytes) (parse_query : Bytes → Option (Dict (List Bytes))) (uri : Bytes)
    (mag : Magnet) (a b : Bytes)
    → parse_magnet parse_query uri ≡ some mag
    → verify_info_hash sha1 sha256 a mag ≡ true
    → verify_info_hash sha1 sha256 b mag ≡ true
    → (sha1 a ≡ sha1 b) ⊎ (sha256 a ≡ sha256 b)
verify_info_hash-agrees sha1 sha256 parse_query uri mag a b h va vb =
    let named = parse_magnet-IsNamed parse_query uri mag h in
    let ka = (verify_info_hash_iff sha1 sha256 a mag).0 va in
    let kb = (verify_info_hash_iff sha1 sha256 b mag).0 vb in
    elim named.named [
      | inl v1 ↦ inl (agreed (sha1 a) (sha1 b) mag.info_hash_v1 v1 ka.0 kb.0)
      | inr v2 ↦ inr (agreed (sha256 a) (sha256 b) mag.info_hash_v2 v2 ka.1 kb.1)
    ]
