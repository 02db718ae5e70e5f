-- ===== src/Tracker/Compact/RoundTrip.antt =====
-- What the tracker packs the client unpacks: the addresses of either family come back in order.
use weightless.Prelude.{
  ℕ, suc, ◌+◌, ◌*◌, ◌/◌, ◌%◌, ◌<◌, ◌≡◌, refl, sym, ap, ◌∙◌, subst, none, some, List, [], ◌∷◌, ◌++◌,
  Bytes, length, drop, arith, append_assoc, append-nil, length-append, map, take_append,
  drop_append, All,
}
use weightless.Prelude.Decimal.{decimal}
use weightless.Prelude.HostPort.{
  split_host_port, join_host_port, IsClean, split_host_port-join_host_port,
}
use weightless.Prelude.Strconv.{parse_int-decimal}
use weightless.Tracker.Compact.{
  IpParser, port_bytes, pack_to, pack_parts, pack_loop, pack_peers, be16, unpack_loop, unpack_peers,
}

-- A peer's address as bytes, of either family, with its port.
pub data Endpoint : Type 0 where
  v4 v6 : Bytes → ℕ → Endpoint

module _ (show : Bytes → Bytes) where
  -- The text under which the tracker keeps the endpoint.
  abbrev pub address : Endpoint → Bytes
  address (v4 a port) = join_host_port (show a) (decimal port)
  address (v6 a port) = join_host_port (show a) (decimal port)

  abbrev pub addresses4 : List Endpoint → List Bytes
  addresses4 [] = []
  addresses4 (v4 a port ∷ es) = address (v4 a port) ∷ addresses4 es
  addresses4 (v6 a port ∷ es) = addresses4 es

  abbrev pub addresses6 : List Endpoint → List Bytes
  addresses6 [] = []
  addresses6 (v4 a port ∷ es) = addresses6 es
  addresses6 (v6 a port ∷ es) = address (v6 a port) ∷ addresses6 es

  -- What the text of an address is read back as, and that it splits from its port.
  abbrev pub IsEndpoint : IpParser → Endpoint → Type 0
  IsEndpoint ip (v4 a port) =
      (ip.to4 (show a) ≡ some a) × (length a ≡ 4) × (port < 65536) × IsClean (show a) (decimal port)
  IsEndpoint ip (v6 a port) =
      (ip.to4 (show a) ≡ none)
      × (ip.to16 (show a) ≡ some a)
      × (length a ≡ 16)
      × (port < 65536)
      × IsClean (show a) (decimal port)

abbrev packed4 : List Endpoint → Bytes
packed4 [] = []
packed4 (v4 a port ∷ es) = (a ++ port_bytes port) ++ packed4 es
packed4 (v6 a port ∷ es) = packed4 es

abbrev packed6 : List Endpoint → Bytes
packed6 [] = []
packed6 (v4 a port ∷ es) = packed6 es
packed6 (v6 a port ∷ es) = (a ++ port_bytes port) ++ packed6 es

pack_parts-address :
    (ip : IpParser) (host : Bytes) (port : ℕ) (packed : Bytes × Bytes)
    → port < 65536
    → IsClean host (decimal port)
    → pack_parts ip (split_host_port (join_host_port host (decimal port))) packed
      ≡ pack_to ip (ip.to4 host) (ip.to16 host) (port_bytes port) packed
pack_parts-address ip host port packed small clean =
    rw
      (
        split_host_port-join_host_port host (decimal port) clean,
        parse_int-decimal port (omega (arith, small)),
      )
      refl

pack_loop-packed :
    (show : Bytes → Bytes) (ip : IpParser) (es : List Endpoint) (a b : Bytes)
    → All (IsEndpoint show ip) es
    → pack_loop ip (map (address show) es) (a, b) ≡ (a ++ packed4 es, b ++ packed6 es)
unfolding pack_loop
pack_loop-packed show ip [] a b h = rw (append-nil a, append-nil b) refl
pack_loop-packed show ip (v4 x port ∷ es) a b ((r, len, small, clean), h) =
    ap (pack_loop ip (map (address show) es)) (
      pack_parts-address ip (show x) port (a, b) small clean
      ∙ ap (λ o. pack_to ip o (ip.to16 (show x)) (port_bytes port) (a, b)) r)
    ∙ pack_loop-packed show ip es (a ++ x ++ port_bytes port) b h
    ∙ rw (append_assoc a x (port_bytes port), append_assoc a (x ++ port_bytes port) (packed4 es))
        refl
pack_loop-packed show ip (v6 x port ∷ es) a b ((other, r, len, small, clean), h) =
    ap (pack_loop ip (map (address show) es)) (
      pack_parts-address ip (show x) port (a, b) small clean
      ∙ ap (λ o. pack_to ip o (ip.to16 (show x)) (port_bytes port) (a, b)) other
      ∙ ap (λ o. pack_to ip none o (port_bytes port) (a, b)) r)
    ∙ pack_loop-packed show ip es a (b ++ x ++ port_bytes port) h
    ∙ rw (append_assoc b x (port_bytes port), append_assoc b (x ++ port_bytes port) (packed6 es))
        refl

be16-port_bytes : (port : ℕ) (s : Bytes) → port < 65536 → be16 (port_bytes port ++ s) ≡ port
unfolding port_bytes
be16-port_bytes port s h = omega (arith, h)

drop_entry : (x p s : Bytes) → length p ≡ 2 → drop (length x + 2) ((x ++ p) ++ s) ≡ s
drop_entry [] p s h = ap (λ n. drop n (p ++ s)) (sym h) ∙ drop_append p s
drop_entry (c ∷ x) p s h =
    let one_less : suc (length x) + 2 ≡ suc (length x + 2) = omega arith in
    ap (λ n. drop n ((c ∷ x ++ p) ++ s)) one_less ∙ drop_entry x p s h

length-port_bytes : (port : ℕ) → length (port_bytes port) ≡ 2
unfolding port_bytes
length-port_bytes port = refl

-- One entry and the entries behind it.
unpack_loop-entry :
    (show : Bytes → Bytes) (x s : Bytes) (port n : ℕ)
    → port < 65536
    → unpack_loop show (length x) (suc n) ((x ++ port_bytes port) ++ s)
      ≡ join_host_port (show x) (decimal port) ∷ unpack_loop show (length x) n s
unfolding unpack_loop
unpack_loop-entry show x s port n small =
    rw
      (
        drop_entry x (port_bytes port) s (length-port_bytes port),
        append_assoc x (port_bytes port) s,
        take_append x (port_bytes port ++ s),
        drop_append x (port_bytes port ++ s),
        be16-port_bytes port s small,
      )
      refl

unpack_loop-entry_of :
    (show : Bytes → Bytes) (x s : Bytes) (port n : ℕ) {len : ℕ}
    → length x ≡ len
    → port < 65536
    → unpack_loop show len (suc n) ((x ++ port_bytes port) ++ s)
      ≡ join_host_port (show x) (decimal port) ∷ unpack_loop show len n s
unpack_loop-entry_of show x s port n h small =
    subst
      (λ k.
        unpack_loop show k (suc n) ((x ++ port_bytes port) ++ s)
        ≡ join_host_port (show x) (decimal port) ∷ unpack_loop show k n s)
      h (unpack_loop-entry show x s port n small)

unpack_loop-packed4 :
    (show : Bytes → Bytes) (ip : IpParser) (es : List Endpoint)
    → All (IsEndpoint show ip) es
    → (length (packed4 es) ≡ 6 * length (addresses4 show es))
      × (unpack_loop show 4 (length (addresses4 show es)) (packed4 es) ≡ addresses4 show es)
unfolding unpack_loop
unpack_loop-packed4 show ip [] h = (refl, refl)
unpack_loop-packed4 show ip (v4 x port ∷ es) ((r, len, small, clean), h) =
    let ih = unpack_loop-packed4 show ip es h in
    (
      omega (
        arith,
        length-append (x ++ port_bytes port) (packed4 es),
        length-append x (port_bytes port),
        length-port_bytes port,
        len,
        ih.0,
      ),
      unpack_loop-entry_of show x (packed4 es) port (length (addresses4 show es)) len small
          ∙ ap (◌∷◌ (address show (v4 x port))) ih.1,
    )
unpack_loop-packed4 show ip (v6 x port ∷ es) (e, h) = unpack_loop-packed4 show ip es h

unpack_loop-packed6 :
    (show : Bytes → Bytes) (ip : IpParser) (es : List Endpoint)
    → All (IsEndpoint show ip) es
    → (length (packed6 es) ≡ 18 * length (addresses6 show es))
      × (unpack_loop show 16 (length (addresses6 show es)) (packed6 es) ≡ addresses6 show es)
unfolding unpack_loop
unpack_loop-packed6 show ip [] h = (refl, refl)
unpack_loop-packed6 show ip (v4 x port ∷ es) (e, h) = unpack_loop-packed6 show ip es h
unpack_loop-packed6 show ip (v6 x port ∷ es) ((other, r, len, small, clean), h) =
    let ih = unpack_loop-packed6 show ip es h in
    (
      omega (
        arith,
        length-append (x ++ port_bytes port) (packed6 es),
        length-append x (port_bytes port),
        length-port_bytes port,
        len,
        ih.0,
      ),
      unpack_loop-entry_of show x (packed6 es) port (length (addresses6 show es)) len small
          ∙ ap (◌∷◌ (address show (v6 x port))) ih.1,
    )

unpack_entries :
    (show : Bytes → Bytes) (peers : Bytes) (len : ℕ) {n : ℕ} {addrs : List Bytes}
    → length peers % (len + 2) ≡ 0
    → length peers / (len + 2) ≡ n
    → unpack_loop show len n peers ≡ addrs
    → unpack_peers show peers len ≡ some addrs
unfolding unpack_peers
unpack_entries show peers len whole count e = rw (whole, count) (ap some e)

-- From the addresses that the tracker keeps, of either family and in any mixture, the client gets
-- back from the two packed lists those of each family, in order and none lost.
pub unpack_peers-pack_peers :
    (show : Bytes → Bytes) (ip : IpParser) (es : List Endpoint)
    → All (IsEndpoint show ip) es
    → (unpack_peers show (pack_peers ip (map (address show) es)).0 4 ≡ some (addresses4 show es))
      × (unpack_peers show (pack_peers ip (map (address show) es)).1 16 ≡ some (addresses6 show es))
unfolding pack_peers
unpack_peers-pack_peers show ip es h =
    let packed = pack_loop-packed show ip es [] [] h in
    let four = unpack_loop-packed4 show ip es h in
    let six = unpack_loop-packed6 show ip es h in
    rw (packed) (
      unpack_entries show (packed4 es) 4 (omega (arith, four.0)) (omega (arith, four.0)) four.1,
      unpack_entries show (packed6 es) 16 (omega (arith, six.0)) (omega (arith, six.0)) six.1,
    )
