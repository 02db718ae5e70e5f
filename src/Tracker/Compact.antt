-- ===== src/Tracker/Compact.antt =====
-- PackPeers of internal/tracker/announce.go and unpackPeers of internal/client/tracker.go: the compact
-- peer lists. net.ParseIP with To4 and To16, and net.IP.String, are parameters of the sections.
pub mod RoundTrip
mod Tests
use weightless.Prelude.{
  ℕ, zero, suc, ◌+◌, ◌/◌, ◌%◌, ◌*◌, Option, none, some, List, [], ◌∷◌, ◌++◌, Bytes, ◌==◌,
  if◌then◌else◌, length, take, drop,
}
use weightless.Prelude.Decimal.{decimal}
use weightless.Prelude.HostPort.{split_host_port, join_host_port}
use weightless.Prelude.Strconv.{parse_int}

-- net.ParseIP followed by To4, or by To16; no address is `none`.
pub record IpParser : Type 0 where
  pub to4 : Bytes → Option Bytes
  pub to16 : Bytes → Option Bytes

-- byte(port >> 8), byte(port & 0xff)
pub port_bytes : ℕ → Bytes
port_bytes port = (port / 256) % 256 ∷ port % 256 ∷ []

module _ (ip : IpParser) where
  abbrev pub pack_to : Option Bytes → Option Bytes → Bytes → Bytes × Bytes → Bytes × Bytes
  pack_to (some a) b port (ipv4, ipv6) = (ipv4 ++ a ++ port, ipv6)
  pack_to none (some b) port (ipv4, ipv6) = (ipv4, ipv6 ++ b ++ port)
  pack_to none none port packed = packed

  abbrev pub pack_port : Bytes → Option ℕ → Bytes × Bytes → Bytes × Bytes
  pack_port host none packed = packed
  pack_port host (some port) packed = pack_to (ip.to4 host) (ip.to16 host) (port_bytes port) packed

  -- An address without a port or with a port that is no number is passed over.
  abbrev pub pack_parts : Option (Bytes × Bytes) → Bytes × Bytes → Bytes × Bytes
  pack_parts none packed = packed
  pack_parts (some (host, port)) packed = pack_port host (parse_int port) packed

  pub pack_loop : List Bytes → Bytes × Bytes → Bytes × Bytes
  pack_loop [] packed = packed
  pack_loop (addr ∷ addrs) packed = pack_loop addrs (pack_parts (split_host_port addr) packed)

  unfoldable pub pack_peers : List Bytes → Bytes × Bytes
  unfolding pack_loop
  pack_peers addrs = pack_loop addrs ([], [])

abbrev pub be16 : Bytes → ℕ
be16 (a ∷ b ∷ s) = a * 256 + b
be16 s = 0

module _ (show : Bytes → Bytes) where
  pub unpack_loop : ℕ → ℕ → Bytes → List Bytes
  unpack_loop ip_len zero peers = []
  unpack_loop ip_len (suc n) peers =
      join_host_port (show (take ip_len peers)) (decimal (be16 (drop ip_len peers)))
      ∷ unpack_loop ip_len n (drop (ip_len + 2) peers)

  -- `none` is the error for a length that is no multiple of an entry's.
  unfoldable pub unpack_peers : Bytes → ℕ → Option (List Bytes)
  unfolding unpack_loop
  unpack_peers peers ip_len =
      if length peers % (ip_len + 2) == 0
      then some (unpack_loop ip_len (length peers / (ip_len + 2)) peers)
      else none
