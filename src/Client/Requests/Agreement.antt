-- ===== src/Client/Requests/Agreement.antt =====
-- The tracker recognizes what the client sends, and reads what the client meant.
use weightless.Prelude.{
  ℕ, ◌^◌, ◌<◌, ◌≤◌, ◌≡◌, ◌⊎◌, refl, sym, ap, ◌∙◌, true, false, ◌&&◌, not, none, [], ◌∷◌, Bytes,
  codes, ◌===◌, ===_iff, if◌then◌else◌, length, arith, Bool-cases, inl, inr,
}
use weightless.Prelude.Decimal.{decimal, IsCanonical, decimal-IsCanonical}
use weightless.Prelude.Strconv.{parse_uint-decimal, parse_int-decimal}
use weightless.Tracker.Query
use weightless.Tracker.Query.{Query, get-set}
use weightless.Tracker.Recognize.{
  AnnounceParams, PeerEvent, none_event, paused, started, stopped, completed, Reason,
  invalid_uploaded, invalid_downloaded, invalid_left, ok, recognize_announce, recognize_hash,
  recognize_peer_id, recognize_port, recognize_count, recognize_event, recognize_num_want,
  recognize_compact, padded,
}
use weightless.Client.Requests.{AnnounceOptions, format_int, with_event, announce_query}

-- The event of a request
abbrev pub event_of : PeerEvent → Bytes
event_of started = codes "started"
event_of stopped = codes "stopped"
event_of completed = codes "completed"
event_of none_event = []
event_of paused = []

format_int-decimal : (n : ℕ) → n < 2 ^ 63 → format_int n ≡ decimal n
unfolding format_int
format_int-decimal n h = ground arith

not_empty_of_IsCanonical : (s : Bytes) → IsCanonical s → (s === []) ≡ false
not_empty_of_IsCanonical [] h = absurd h
not_empty_of_IsCanonical (c ∷ s) h = refl

decimal_not_empty : (n : ℕ) → (decimal n === []) ≡ false
decimal_not_empty n = not_empty_of_IsCanonical (decimal n) (decimal-IsCanonical n)

recognize_port-format_int : (n : ℕ) → 1 ≤ n → n ≤ 65535 → recognize_port (format_int n) ≡ ok n
unfolding recognize_port
recognize_port-format_int n low high =
    rw
      (
        format_int-decimal n (omega (arith, high)),
        decimal_not_empty n,
        parse_uint-decimal 65535 n high,
      )
      (ground arith)

recognize_count-format_int :
    (e : Reason) (n : ℕ) → n < 2 ^ 63 → recognize_count e (format_int n) ≡ ok n
unfolding recognize_count
recognize_count-format_int e n h =
    rw (format_int-decimal n h, decimal_not_empty n, parse_int-decimal n h) (ground arith)

recognize_hash-length :
    (raw : Bytes) → (length raw ≡ 20) ⊎ (length raw ≡ 32) → recognize_hash raw ≡ ok raw
unfolding recognize_hash
recognize_hash-length [] h = ground arith
recognize_hash-length (c ∷ raw) h = ground arith

recognize_event-event_of :
    (e : PeerEvent)
    → recognize_event (event_of e) ≡ ok (if event_of e === [] then none_event else e)
unfolding recognize_event
recognize_event-event_of started = refl
recognize_event-event_of stopped = refl
recognize_event-event_of completed = refl
recognize_event-event_of none_event = refl
recognize_event-event_of paused = refl

recognize_peer_id-length : (raw : Bytes) → length raw ≡ 20 → recognize_peer_id raw ≡ ok raw
unfolding recognize_peer_id
recognize_peer_id-length [] h = ground arith
recognize_peer_id-length (c ∷ raw) h = ground arith

get-with_event :
    (k event : Bytes) (q : Query)
    → Query.get k (with_event event q)
      ≡ (if codes "event" === k && not (event === []) then event else Query.get k q)
get-with_event k event q = elim (Bool-cases (event === [])) [
  | inl e ↦ rw e (ground arith)
  | inr e ↦ rw (e, get-set) (ground arith)
]

-- The fields of the query, one by one.
record HasFields (opts : AnnounceOptions) (base q : Query) : Type 0 where
  info_hash : Query.get (codes "info_hash") q ≡ opts.info_hash
  peer_id : Query.get (codes "peer_id") q ≡ opts.peer_id
  port : Query.get (codes "port") q ≡ format_int opts.port
  uploaded : Query.get (codes "uploaded") q ≡ format_int opts.uploaded
  downloaded : Query.get (codes "downloaded") q ≡ format_int opts.downloaded
  left : Query.get (codes "left") q ≡ format_int opts.left
  compact : Query.get (codes "compact") q ≡ codes "1"
  event :
      Query.get (codes "event") q
      ≡ (if not (opts.event === []) then opts.event else Query.get (codes "event") base)
  num_want : Query.get (codes "numwant") q ≡ Query.get (codes "numwant") base

announce_query-HasFields :
    (opts : AnnounceOptions) (q : Query) → HasFields opts q (announce_query opts q)
unfolding announce_query
announce_query-HasFields opts q = record {
  info_hash = simp (get-with_event, get-set) refl;
  peer_id = simp (get-with_event, get-set) refl;
  port = simp (get-with_event, get-set) refl;
  uploaded = simp (get-with_event, get-set) refl;
  downloaded = simp (get-with_event, get-set) refl;
  left = simp (get-with_event, get-set) refl;
  compact = simp (get-with_event, get-set) refl;
  event = simp (get-with_event, get-set) refl;
  num_want = simp (get-with_event, get-set) refl;
}

-- What the client's callers give: a raw info hash of either version, a 20-byte peer id, a port, counters
-- that are not negative and one of the client's events.
pub record IsSendable (opts : AnnounceOptions) (e : PeerEvent) : Type 0 where
  pub hash_length : (length opts.info_hash ≡ 20) ⊎ (length opts.info_hash ≡ 32)
  pub peer_id_length : length opts.peer_id ≡ 20
  pub port_low : 1 ≤ opts.port
  pub port_high : opts.port ≤ 65535
  pub uploaded_range : opts.uploaded < 2 ^ 63
  pub downloaded_range : opts.downloaded < 2 ^ 63
  pub left_range : opts.left < 2 ^ 63
  pub known_event : opts.event ≡ event_of e

-- The parameters that the client meant
abbrev pub meant : AnnounceOptions → PeerEvent → AnnounceParams
meant opts e = record {
  info_hash = padded opts.info_hash;
  info_hash_len = length opts.info_hash;
  peer_id = opts.peer_id;
  port = opts.port;
  uploaded = opts.uploaded;
  downloaded = opts.downloaded;
  left = opts.left;
  event = if event_of e === [] then none_event else e;
  num_want = none;
  compact = true;
}

event_field :
    (event other : Bytes) (e : PeerEvent)
    → event ≡ event_of e
    → other ≡ []
    → recognize_event (if not (event === []) then event else other)
      ≡ ok (if event_of e === [] then none_event else e)
event_field event other e same none_there =
    let sent : (if not (event === []) then event else other) ≡ event =
      elim (Bool-cases (event === [])) [
        | inl nothing ↦ rw nothing (none_there ∙ sym ((===_iff event []).0 nothing))
        | inr something ↦ rw something refl
      ] in
    ap recognize_event (sent ∙ same) ∙ recognize_event-event_of e

-- Every announce that the client sends with sound options to a tracker's URL that brings no event and
-- no numwant of its own is recognized by the tracker, as exactly the parameters that were meant.
pub recognize_announce-announce_query :
    (opts : AnnounceOptions) (e : PeerEvent) (q : Query)
    → IsSendable opts e
    → Query.get (codes "event") q ≡ []
    → Query.get (codes "numwant") q ≡ []
    → recognize_announce (announce_query opts q) ≡ ok (meant opts e)
unfolding recognize_announce
recognize_announce-announce_query opts e q k no_event no_num_want =
    let f = announce_query-HasFields opts q in
    let num_want : recognize_num_want (Query.get (codes "numwant") (announce_query opts q))
        ≡ ok none =
      ap recognize_num_want (f.num_want ∙ no_num_want) ∙ unfold recognize_num_want in refl in
    let compact : recognize_compact (Query.get (codes "compact") (announce_query opts q))
        ≡ ok true =
      ap recognize_compact f.compact ∙ unfold recognize_compact in refl in
    rw
      (
        f.info_hash,
        recognize_hash-length opts.info_hash k.hash_length,
        f.peer_id,
        recognize_peer_id-length opts.peer_id k.peer_id_length,
        f.port,
        recognize_port-format_int opts.port k.port_low k.port_high,
        f.uploaded,
        recognize_count-format_int invalid_uploaded opts.uploaded k.uploaded_range,
        f.downloaded,
        recognize_count-format_int invalid_downloaded opts.downloaded k.downloaded_range,
        f.left,
        recognize_count-format_int invalid_left opts.left k.left_range,
        f.event,
        event_field opts.event (Query.get (codes "event") q) e k.known_event no_event,
        num_want,
        compact,
      )
      refl
