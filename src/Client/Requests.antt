-- ===== src/Client/Requests.antt =====
-- The query of Announce in internal/client/tracker.go. The request and the decoding of the answer are
-- the standard library's and a package's; unpackPeers is in Tracker/Compact.antt.
pub mod Agreement
mod Tests
use weightless.Prelude.{ℕ, ◌-◌, Bytes, codes, [], ◌∷◌, ◌===◌, if◌then◌else◌}
use weightless.Prelude.Decimal.{decimal}
use weightless.Prelude.Word.{two64, is_negative}
use weightless.Tracker.Query
use weightless.Tracker.Query.{Query}

-- The counters and the port are int64.
pub record AnnounceOptions : Type 0 where
  pub info_hash : Bytes
  pub peer_id : Bytes
  pub port : ℕ
  pub uploaded : ℕ
  pub downloaded : ℕ
  pub left : ℕ
  pub event : Bytes

-- strconv.FormatInt at base 10, and strconv.Itoa
pub format_int : ℕ → Bytes
format_int n = if is_negative n then b'-' ∷ decimal (two64 - n) else decimal n

abbrev pub with_event : Bytes → Query → Query
with_event event q = if event === [] then q else Query.set (codes "event") event q

-- `q` is the query of the tracker's URL.
pub announce_query : AnnounceOptions → Query → Query
unfolding format_int
announce_query opts q =
    let q1 = Query.set (codes "info_hash") opts.info_hash q in
    let q2 = Query.set (codes "peer_id") opts.peer_id q1 in
    let q3 = Query.set (codes "port") (format_int opts.port) q2 in
    let q4 = Query.set (codes "uploaded") (format_int opts.uploaded) q3 in
    let q5 = Query.set (codes "downloaded") (format_int opts.downloaded) q4 in
    let q6 = Query.set (codes "left") (format_int opts.left) q5 in
    let q7 = Query.set (codes "compact") (codes "1") q6 in with_event opts.event q7
