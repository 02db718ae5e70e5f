-- ===== src/Tracker/State/History.antt =====
-- The swarm state against its history: the nested maps hold, for each peer of each swarm, what the
-- latest event about it left.
use weightless.Prelude.{
  ℕ, ◌≡◌, refl, ap, ◌∙◌, ◌&&◌, Option, none, some, List, [], ◌∷◌, Bytes, ◌===◌, ===_iff,
  if◌then◌else◌, arith,
}
use weightless.Prelude.Dict
use weightless.Prelude.Dict.{Dict, get-put, get-remove, Distinct, put-Distinct, remove-Distinct}
use weightless.Tracker.State.{
  Peer, UserUsage, SwarmState, prune_memory, get_peer, swarm_or_empty, update_peer, remove_from,
  remove_peer, track_usage, load_row, load_from_db, PeerRow,
}
use weightless.Tracker.State.Prune.{
  IsValid, get-AllDistinct, put-AllDistinct, prune_swarms-Distinct, within_hour, prune_memory_lem,
}

-- What can happen to the state while the tracker serves.
pub data Event : Type 0 where
  updated : Bytes → Bytes → Peer → Event
  removed : Bytes → Bytes → Event
  used : Bytes → UserUsage → Event
  pruned : ℕ → Event
  loaded : List PeerRow → Event

pub apply_event : Event → SwarmState → SwarmState
apply_event (updated hash id p) s = update_peer hash id p s
apply_event (removed hash id) s = remove_peer hash id s
apply_event (used user delta) s = track_usage user delta s
apply_event (pruned now) s = prune_memory now s
apply_event (loaded rows) s = load_from_db rows s

pub apply_events : List Event → SwarmState → SwarmState
apply_events [] s = s
apply_events (e ∷ events) s = apply_events events (apply_event e s)

module _ (hash id : Bytes) where
  -- The last of the rows about the peer.
  abbrev pub after_rows : List PeerRow → Option Peer → Option Peer
  after_rows [] old = old
  after_rows (r ∷ rows) old =
      after_rows rows (if r.info_hash === hash && r.peer_id === id then some r.peer else old)

  -- What one peer's entry becomes.
  abbrev pub after_event : Event → Option Peer → Option Peer
  after_event (updated h i p) old = if h === hash && i === id then some p else old
  after_event (removed h i) old = if h === hash && i === id then none else old
  after_event (used user delta) old = old
  after_event (pruned now) old = within_hour now old
  after_event (loaded rows) old = after_rows rows old

  abbrev pub after_events : List Event → Option Peer → Option Peer
  after_events [] old = old
  after_events (e ∷ events) old = after_events events (after_event e old)

put_swarm-IsValid :
    (hash id : Bytes) (p : Peer) (s : SwarmState)
    → IsValid s
    → IsValid (record s {
      peers = Dict.put hash (Dict.put id p (swarm_or_empty (Dict.get hash s.peers))) s.peers;
    })
put_swarm-IsValid hash id p s v =
    let old = swarm_or_empty (Dict.get hash s.peers) in
    let new = put-Distinct id p old (get-AllDistinct hash s.peers v.members) in
    record {
      swarms = put-Distinct hash (Dict.put id p old) s.peers v.swarms;
      members = put-AllDistinct hash (Dict.put id p old) s.peers new v.members;
      users = v.users;
    }

load_from_db-IsValid :
    (rows : List PeerRow) (s : SwarmState) → IsValid s → IsValid (load_from_db rows s)
unfolding load_from_db
load_from_db-IsValid [] s v = v
load_from_db-IsValid (r ∷ rows) s v =
    load_from_db-IsValid rows (load_row r s) (put_swarm-IsValid r.info_hash r.peer_id r.peer s v)

remove_peer-IsValid :
    (hash id : Bytes) (s : SwarmState) → IsValid s → IsValid (remove_peer hash id s)
unfolding remove_peer
remove_peer-IsValid hash id s v =
    go (Dict.get hash s.peers) (get-AllDistinct hash s.peers v.members)
  where
    go :
        (found : Option (Dict Peer))
        → Distinct (swarm_or_empty found)
        → IsValid (record s { peers = remove_from hash id found s.peers })
    go none d = v
    go (some m) d = record {
      swarms = put-Distinct hash (Dict.remove id m) s.peers v.swarms;
      members = put-AllDistinct hash (Dict.remove id m) s.peers (remove-Distinct id m d) v.members;
      users = v.users;
    }

apply_event-IsValid : (e : Event) (s : SwarmState) → IsValid s → IsValid (apply_event e s)
unfolding apply_event
apply_event-IsValid (updated hash id p) s v =
    unfold update_peer in
    let w = put_swarm-IsValid hash id p s v in
    record { swarms = w.swarms; members = w.members; users = w.users }
apply_event-IsValid (removed hash id) s v = remove_peer-IsValid hash id s v
apply_event-IsValid (used user delta) s v =
    unfold track_usage in
    record { swarms = v.swarms; members = v.members; users = put-Distinct user _ s.users v.users }
apply_event-IsValid (pruned now) s v =
    unfold prune_memory in
    let (swarms, members) = prune_swarms-Distinct now s.peers v.swarms v.members in
    record { swarms = swarms; members = members; users = v.users }
apply_event-IsValid (loaded rows) s v = load_from_db-IsValid rows s v

get_after_put :
    (hash id h i : Bytes) (p : Peer) (peers : Dict (Dict Peer))
    → Dict.get id (
        swarm_or_empty
          (Dict.get hash (Dict.put h (Dict.put i p (swarm_or_empty (Dict.get h peers))) peers)))
      ≡ (if h === hash && i === id
          then some p
          else Dict.get id (swarm_or_empty (Dict.get hash peers)))
get_after_put hash id h i p peers =
    let m = swarm_or_empty (Dict.get h peers) in
    rw (get-put h hash (Dict.put i p m) peers) (ground (arith, ===_iff h hash, get-put i id p m))

get_after_remove :
    (hash id h i : Bytes) (peers : Dict (Dict Peer)) (found : Option (Dict Peer))
    → Dict.get h peers ≡ found
    → Dict.get id (swarm_or_empty (Dict.get hash (remove_from h i found peers))) ≡ (
        if h === hash && i === id then none else Dict.get id (swarm_or_empty (Dict.get hash peers)))
unfolding Dict.get
get_after_remove hash id h i peers none e = ground (arith, ===_iff h hash)
get_after_remove hash id h i peers (some m) e =
    rw (get-put h hash (Dict.remove i m) peers) (ground (arith, ===_iff h hash, get-remove i id m))

pub get_peer-update_peer :
    (hash id h i : Bytes) (p : Peer) (s : SwarmState)
    → get_peer hash id (update_peer h i p s)
      ≡ (if h === hash && i === id then some p else get_peer hash id s)
unfolding get_peer update_peer
get_peer-update_peer hash id h i p s = get_after_put hash id h i p s.peers

pub get_peer-remove_peer :
    (hash id h i : Bytes) (s : SwarmState)
    → get_peer hash id (remove_peer h i s)
      ≡ (if h === hash && i === id then none else get_peer hash id s)
unfolding get_peer remove_peer
get_peer-remove_peer hash id h i s = get_after_remove hash id h i s.peers (Dict.get h s.peers) refl

pub get_peer-track_usage :
    (hash id user : Bytes) (delta : UserUsage) (s : SwarmState)
    → get_peer hash id (track_usage user delta s) ≡ get_peer hash id s
unfolding get_peer track_usage
get_peer-track_usage hash id user delta s = refl

get_peer-load_from_db :
    (hash id : Bytes) (rows : List PeerRow) (s : SwarmState)
    → get_peer hash id (load_from_db rows s) ≡ after_rows hash id rows (get_peer hash id s)
unfolding load_from_db get_peer
get_peer-load_from_db hash id [] s = refl
get_peer-load_from_db hash id (r ∷ rows) s =
    get_peer-load_from_db hash id rows (load_row r s)
    ∙ ap (after_rows hash id rows) (get_after_put hash id r.info_hash r.peer_id r.peer s.peers)

get_peer-apply_event :
    (hash id : Bytes) (e : Event) (s : SwarmState)
    → IsValid s
    → get_peer hash id (apply_event e s) ≡ after_event hash id e (get_peer hash id s)
unfolding apply_event
get_peer-apply_event hash id (updated h i p) s v = get_peer-update_peer hash id h i p s
get_peer-apply_event hash id (removed h i) s v = get_peer-remove_peer hash id h i s
get_peer-apply_event hash id (used user delta) s v = get_peer-track_usage hash id user delta s
get_peer-apply_event hash id (pruned now) s v = (prune_memory_lem now s v).0 hash id
get_peer-apply_event hash id (loaded rows) s v = get_peer-load_from_db hash id rows s

-- From a valid state, after any sequence of updates, removals, usage reports, prunings and loads, each
-- swarm, peer and user is there once, and the entry of every peer of every swarm is what the events
-- about it, in order, make of its first entry.
pub apply_events_lem :
    (events : List Event) (s : SwarmState)
    → IsValid s
    → IsValid (apply_events events s)
      × ((hash id : Bytes)
          → get_peer hash id (apply_events events s)
            ≡ after_events hash id events (get_peer hash id s))
unfolding apply_events
apply_events_lem [] s v = (v, λ hash id. refl)
apply_events_lem (e ∷ events) s v =
    let (valid, entries) = apply_events_lem events (apply_event e s) (apply_event-IsValid e s v) in
    (
      valid,
      λ hash id.
          entries hash id ∙ ap (after_events hash id events) (get_peer-apply_event hash id e s v),
    )
