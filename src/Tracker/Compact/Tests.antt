-- ===== src/Tracker/Compact/Tests.antt =====
-- Runs of the packer, with a table of two addresses for the texts of the net package.
use weightless.Prelude.{
  ◌≡◌, refl, none, some, List, [], ◌∷◌, ◌++◌, Bytes, codes, ◌===◌, if◌then◌else◌, map, replicate,
  All, arith,
}
use weightless.Prelude.Decimal.{decimal}
use weightless.Prelude.HostPort.{IsClean}
use weightless.Tracker.Compact.{IpParser, pack_peers, unpack_peers}
use weightless.Tracker.Compact.RoundTrip.{
  Endpoint, v4, v6, address, addresses4, addresses6, IsEndpoint, unpack_peers-pack_peers,
}

abbrev near : Bytes
near = 10 ∷ 0 ∷ 0 ∷ 1 ∷ []

abbrev far : Bytes
far = replicate 15 0 ++ 1 ∷ []

abbrev show : Bytes → Bytes
show a = if a === near then codes "10.0.0.1" else codes "::1"

abbrev parser : IpParser
parser = record {
  to4 = λ s. if s === codes "10.0.0.1" then some near else none;
  to16 = λ s. if s === codes "::1" then some far else none;
}

abbrev peers : List Endpoint
peers = v6 far 443 ∷ v4 near 6881 ∷ []

far-IsClean : IsClean (show far) (decimal 443)
unfolding decimal
far-IsClean = record {
  host_open = refl;
  host_close = refl;
  port_open = refl;
  port_close = refl;
  port_colon = refl;
}

near-IsClean : IsClean (show near) (decimal 6881)
unfolding decimal
near-IsClean = record {
  host_open = refl;
  host_close = refl;
  port_open = refl;
  port_close = refl;
  port_colon = refl;
}

peers-IsEndpoint : All (IsEndpoint show parser) peers
peers-IsEndpoint =
    ((refl, refl, refl, omega arith, far-IsClean), ((refl, refl, omega arith, near-IsClean), tt))

unpack_peers-pack_peers_example :
    (unpack_peers show (pack_peers parser (map (address show) peers)).0 4
      ≡ some (addresses4 show peers))
    × (unpack_peers show (pack_peers parser (map (address show) peers)).1 16
        ≡ some (addresses6 show peers))
unpack_peers-pack_peers_example = unpack_peers-pack_peers show parser peers peers-IsEndpoint
