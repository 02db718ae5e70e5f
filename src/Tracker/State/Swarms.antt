-- ===== src/Tracker/State/Swarms.antt =====
-- GetPeers and GetCounts: what they return, whatever the order of Go's visit of the map.
use mathlib.Core.List.{Perm}
use weightless.Prelude.{
  ℕ, zero, suc, ◌+◌, ◌-◌, ◌≤◌, ◌≡◌, refl, sym, ap, ◌∙◌, List, [], ◌∷◌, ◌++◌, Bytes, ◌===◌, leb,
  ◌==◌, if◌then◌else◌, length, length-append, take, min, arith, append-nil, append_assoc,
  Bool-cases, inl, inr, length-take,
}
use weightless.Prelude.Dict.{Dict}
use weightless.Prelude.Sums.{total, total-perm}
use weightless.Tracker.State.{
  Peer, SwarmState, swarm, peers_loop, get_peers, counts_loop, get_counts,
}

-- `range` visits every entry once.
abbrev pub IsVisit : (Dict Peer → Dict Peer) → Type 0
IsVisit order = (m : Dict Peer) → Perm (order m) m

-- The addresses of a swarm but for one peer, in order.
abbrev pub others : Bytes → Dict Peer → List Bytes
others exclude [] = []
others exclude ((id, p) ∷ rest) =
    if id === exclude then others exclude rest else p.addr ∷ others exclude rest

abbrev pub is_other : Bytes → Bytes × Peer → ℕ
is_other exclude (id, p) = if id === exclude then 0 else 1

abbrev pub is_seeder : Bytes × Peer → ℕ
is_seeder (id, p) = if p.left == 0 then 1 else 0

abbrev pub is_leecher : Bytes × Peer → ℕ
is_leecher (id, p) = if p.left == 0 then 0 else 1

minus_zero : (n : ℕ) → n - 0 ≡ n
minus_zero n = omega arith

take_nil : (n : ℕ) → take {A = Bytes} n [] ≡ []
take_nil zero = refl
take_nil (suc n) = refl

peers_loop-take :
    (exclude : Bytes) (limit : ℕ) (entries : Dict Peer) (addrs : List Bytes)
    → length addrs ≤ limit
    → peers_loop exclude limit entries addrs
      ≡ addrs ++ take (limit - length addrs) (others exclude entries)
unfolding peers_loop
peers_loop-take exclude limit [] addrs h =
    rw (take_nil (limit - length addrs)) (sym (append-nil addrs))
peers_loop-take exclude limit ((id, p) ∷ rest) addrs h = elim (Bool-cases (id === exclude)) [
  | inl skip ↦ rw skip (peers_loop-take exclude limit rest addrs h)
  | inr other ↦ elim (Bool-cases (leb limit (length addrs))) [
    | inl full ↦
        let none_left : limit - length addrs ≡ 0 = ground arith in
        rw (other, full, none_left) (sym (append-nil addrs))
    | inr free ↦
        let one_less : limit - length addrs ≡ suc (limit - length (addrs ++ p.addr ∷ [])) =
          ground (arith, length-append addrs (p.addr ∷ [])) in
        rw (other, free, one_less)
          (peers_loop-take exclude limit rest (addrs ++ p.addr ∷ [])
              (ground (arith, length-append addrs (p.addr ∷ [])))
            ∙ append_assoc addrs (p.addr ∷ []) _)
  ]
]

length-others :
    (exclude : Bytes) (entries : Dict Peer)
    → length (others exclude entries) ≡ total (is_other exclude) entries
length-others exclude [] = refl
length-others exclude ((id, p) ∷ rest) = ground (arith, length-others exclude rest)

counts_loop-total :
    (entries : Dict Peer) (c i : ℕ)
    → counts_loop entries c i ≡ (c + total is_seeder entries, i + total is_leecher entries)
unfolding counts_loop
counts_loop-total [] c i = ground arith
counts_loop-total ((id, p) ∷ rest) c i =
    ground (arith, counts_loop-total rest (c + 1) i, counts_loop-total rest c (i + 1))

total_split :
    (entries : Dict Peer) → total is_seeder entries + total is_leecher entries ≡ length entries
total_split [] = refl
total_split ((id, p) ∷ rest) = ground (arith, total_split rest)

-- GetPeers returns the first `limit` addresses of the swarm's other peers in the order of the visit:
-- as many as there are other peers, and `limit` of them at most, in whatever order.
pub get_peers_lem :
    (order : Dict Peer → Dict Peer) (hash exclude : Bytes) (limit : ℕ) (s : SwarmState)
    → IsVisit order
    → (get_peers order hash exclude limit s ≡ take limit (others exclude (order (swarm hash s))))
      × (length (get_peers order hash exclude limit s)
          ≡ min limit (length (others exclude (swarm hash s))))
unfolding get_peers
get_peers_lem order hash exclude limit s visit =
    let entries = order (swarm hash s) in
    let found : peers_loop exclude limit entries [] ≡ take limit (others exclude entries) =
      peers_loop-take exclude limit entries [] (omega arith)
      ∙ ap (λ n. take n (others exclude entries)) (minus_zero limit) in
    (
      found,
      omega (
        arith,
        ap length found,
        length-take limit (others exclude entries),
        length-others exclude entries,
        length-others exclude (swarm hash s),
        total-perm (is_other exclude) (visit (swarm hash s)),
      ),
    )

-- GetCounts returns how many peers have nothing left to fetch and how many have, in whatever order
-- the map is visited, and each peer of the swarm is counted once.
pub get_counts_lem :
    (order : Dict Peer → Dict Peer) (hash : Bytes) (s : SwarmState)
    → IsVisit order
    → (get_counts order hash s ≡ (total is_seeder (swarm hash s), total is_leecher (swarm hash s)))
      × ((get_counts order hash s).0 + (get_counts order hash s).1 ≡ length (swarm hash s))
unfolding get_counts
get_counts_lem order hash s visit =
    let entries = order (swarm hash s) in
    let seeders = total-perm is_seeder (visit (swarm hash s)) in
    let leechers = total-perm is_leecher (visit (swarm hash s)) in
    let split = total_split (swarm hash s) in
    rw (counts_loop-total entries 0 0)
      (ground (arith, seeders, leechers), omega (arith, seeders, leechers, split))
