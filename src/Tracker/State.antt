-- ===== src/Tracker/State.antt =====
-- internal/tracker/state.go: the swarms and the usage counters in memory. The lock makes each method
-- one step; FlushUsers and DrainBacklog release it during their request, so they are two steps each.
pub mod Usage
pub mod Swarms
pub mod Prune
pub mod History
mod Tests
use weightless.Prelude.{
  ℕ, suc, ◌+◌, Bool, true, false, ◌&&◌, Option, none, some, List, [], ◌∷◌, ◌++◌, map, Bytes, ◌===◌,
  ltb, leb, ◌==◌, if◌then◌else◌, length,
}
use weightless.Prelude.Dict
use weightless.Prelude.Dict.{Dict}
use weightless.Prelude.Word.{add64, sub64}

pub record Peer : Type 0 where
  pub addr : Bytes
  pub updated_at : ℕ
  pub left : ℕ
  pub downloaded : ℕ
  pub uploaded : ℕ

pub record UserUsage : Type 0 where
  pub uploaded : ℕ
  pub downloaded : ℕ

-- `announces` is the counter metricAnnounces.
pub record SwarmState : Type 0 where
  pub peers : Dict (Dict Peer)
  pub users : Dict UserUsage
  pub announces : ℕ

abbrev pub init : SwarmState
init = record { peers = []; users = []; announces = 0 }

abbrev pub no_usage : UserUsage
no_usage = record { uploaded = 0; downloaded = 0 }

abbrev pub usage_or_zero : Option UserUsage → UserUsage
usage_or_zero none = no_usage
usage_or_zero (some u) = u

-- `+=` and `-=` on the two int64 fields
abbrev pub add_usage : UserUsage → UserUsage → UserUsage
add_usage a b = record {
  uploaded = add64 a.uploaded b.uploaded;
  downloaded = add64 a.downloaded b.downloaded;
}

abbrev pub sub_usage : UserUsage → UserUsage → UserUsage
sub_usage a b = record {
  uploaded = sub64 a.uploaded b.uploaded;
  downloaded = sub64 a.downloaded b.downloaded;
}

pub track_usage : Bytes → UserUsage → SwarmState → SwarmState
track_usage user delta s = record s {
  users = Dict.put user (add_usage (usage_or_zero (Dict.get user s.users)) delta) s.users;
}

-- s.Peers[hash], with the empty map for a missing one, as `range` and a read treat it.
abbrev pub swarm_or_empty : Option (Dict Peer) → Dict Peer
swarm_or_empty none = []
swarm_or_empty (some swarm) = swarm

unfoldable pub swarm : Bytes → SwarmState → Dict Peer
swarm hash s = swarm_or_empty (Dict.get hash s.peers)

unfoldable pub get_peer : Bytes → Bytes → SwarmState → Option Peer
unfolding swarm
get_peer hash id s = Dict.get id (swarm hash s)

unfoldable pub update_peer : Bytes → Bytes → Peer → SwarmState → SwarmState
unfolding swarm
update_peer hash id p s = record s {
  peers = Dict.put hash (Dict.put id p (swarm hash s)) s.peers;
  announces = suc s.announces;
}

-- A swarm that is not there is left so.
abbrev pub remove_from : Bytes → Bytes → Option (Dict Peer) → Dict (Dict Peer) → Dict (Dict Peer)
remove_from hash id none peers = peers
remove_from hash id (some swarm) peers = Dict.put hash (Dict.remove id swarm) peers

unfoldable pub remove_peer : Bytes → Bytes → SwarmState → SwarmState
remove_peer hash id s = record s { peers = remove_from hash id (Dict.get hash s.peers) s.peers }

-- A row of the table `peers`; LoadFromDB inserts each row that scans, newer rows over older ones.
pub record PeerRow : Type 0 where
  pub info_hash : Bytes
  pub peer_id : Bytes
  pub peer : Peer

abbrev pub load_row : PeerRow → SwarmState → SwarmState
load_row r s = record s {
  peers =
      Dict.put r.info_hash
        (Dict.put r.peer_id r.peer (swarm_or_empty (Dict.get r.info_hash s.peers))) s.peers;
}

pub load_from_db : List PeerRow → SwarmState → SwarmState
load_from_db [] s = s
load_from_db (r ∷ rows) s = load_from_db rows (load_row r s)

-- The loop of GetPeers over the entries in the order in which `range` visits them.
pub peers_loop : Bytes → ℕ → Dict Peer → List Bytes → List Bytes
peers_loop exclude limit [] addrs = addrs
peers_loop exclude limit ((id, p) ∷ rest) addrs =
    let skip = peers_loop exclude limit rest addrs in
    let take_one = peers_loop exclude limit rest (addrs ++ p.addr ∷ []) in
    if id === exclude then skip else if leb limit (length addrs) then addrs else take_one

-- `order` is the order of the visit, which Go leaves open.
unfoldable pub get_peers : (Dict Peer → Dict Peer) → Bytes → Bytes → ℕ → SwarmState → List Bytes
unfolding peers_loop swarm
get_peers order hash exclude limit s = peers_loop exclude limit (order (swarm hash s)) []

pub counts_loop : Dict Peer → ℕ → ℕ → ℕ × ℕ
counts_loop [] complete incomplete = (complete, incomplete)
counts_loop ((id, p) ∷ rest) complete incomplete =
    let seeder = counts_loop rest (complete + 1) incomplete in
    let leecher = counts_loop rest complete (incomplete + 1) in
    if p.left == 0 then seeder else leecher

-- The seeders and the leechers of a swarm.
unfoldable pub get_counts : (Dict Peer → Dict Peer) → Bytes → SwarmState → ℕ × ℕ
unfolding counts_loop swarm
get_counts order hash s = counts_loop (order (swarm hash s)) 0 0

-- PruneMemory: `updated_at < now - 3600`, with the subtraction moved across.
abbrev pub is_stale : ℕ → Peer → Bool
is_stale now p = ltb (p.updated_at + 3600) now

pub fresh_peers : ℕ → Dict Peer → Dict Peer
fresh_peers now [] = []
fresh_peers now ((id, p) ∷ rest) =
    let kept = fresh_peers now rest in if is_stale now p then kept else (id, p) ∷ kept

abbrev pub is_empty {ℓ} : {V : Type ℓ} → Dict V → Bool
is_empty [] = true
is_empty (e ∷ m) = false

pub prune_swarms : ℕ → Dict (Dict Peer) → Dict (Dict Peer)
unfolding fresh_peers
prune_swarms now [] = []
prune_swarms now ((hash, swarm) ∷ rest) =
    let kept = prune_swarms now rest in
    if is_empty (fresh_peers now swarm) then kept else (hash, fresh_peers now swarm) ∷ kept

pub prune_memory : ℕ → SwarmState → SwarmState
unfolding prune_swarms
prune_memory now s = record s { peers = prune_swarms now s.peers }

-- The rows that FlushToDB writes for its snapshot.
pub swarm_rows : Bytes → Dict Peer → List PeerRow
swarm_rows hash [] = []
swarm_rows hash ((id, p) ∷ rest) =
    record { info_hash = hash; peer_id = id; peer = p } ∷ swarm_rows hash rest

pub flush_rows : Dict (Dict Peer) → List PeerRow
unfolding swarm_rows
flush_rows [] = []
flush_rows ((hash, swarm) ∷ rest) = swarm_rows hash swarm ++ flush_rows rest
