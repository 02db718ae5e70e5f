-- ===== src/Tracker/State/Prune.antt =====
-- PruneMemory, and the invariant of the maps.
use weightless.Prelude.{
  leb, ◌+◌, ◌∙◌, ℕ, ◌≡◌, refl, true, false, Option, none, some, [], ◌∷◌, Bytes, ===_iff,
  if◌then◌else◌, arith,
}
use weightless.Prelude.Dict
use weightless.Prelude.Dict.{Dict, get-put, get-remove, Distinct, put-Distinct, remove-Distinct}
use weightless.Tracker.State.{
  Peer, SwarmState, is_empty, is_stale, fresh_peers, prune_swarms, prune_memory, get_peer,
  swarm_or_empty,
}

-- A peer that is still fresh.
abbrev pub kept : ℕ → Option Peer → Option Peer
kept now none = none
kept now (some p) = if is_stale now p then none else some p

get-fresh_peers :
    (now : ℕ) (id : Bytes) (m : Dict Peer)
    → Distinct m
    → Dict.get id (fresh_peers now m) ≡ kept now (Dict.get id m)
unfolding fresh_peers Dict.get
get-fresh_peers now id [] d = refl
get-fresh_peers now id ((j, p) ∷ m) d = ground (arith, ===_iff j id, get-fresh_peers now id m d.1)

fresh_peers-Distinct : (now : ℕ) (m : Dict Peer) → Distinct m → Distinct (fresh_peers now m)
unfolding fresh_peers
fresh_peers-Distinct now [] d = tt
fresh_peers-Distinct now ((j, p) ∷ m) d =
    ground (arith, fresh_peers-Distinct now m d.1, get-fresh_peers now j m d.1)

-- Every swarm holds each peer once.
abbrev pub AllDistinct : Dict (Dict Peer) → Type 0
AllDistinct [] = Unit
AllDistinct ((h, m) ∷ swarms) = Distinct m × AllDistinct swarms

-- Each swarm, each peer of a swarm and each user is there once.
pub record IsValid (s : SwarmState) : Type 0 where
  pub swarms : Distinct s.peers
  pub members : AllDistinct s.peers
  pub users : Distinct s.users

pub get-AllDistinct :
    (hash : Bytes) (swarms : Dict (Dict Peer))
    → AllDistinct swarms
    → Distinct (swarm_or_empty (Dict.get hash swarms))
unfolding Dict.get
get-AllDistinct hash [] d = tt
get-AllDistinct hash ((h, m) ∷ swarms) d = ground (arith, get-AllDistinct hash swarms d.1)

pub put-AllDistinct :
    (hash : Bytes) (m : Dict Peer) (swarms : Dict (Dict Peer))
    → Distinct m
    → AllDistinct swarms
    → AllDistinct (Dict.put hash m swarms)
unfolding Dict.put
put-AllDistinct hash m [] dm d = (dm, tt)
put-AllDistinct hash m ((h, n) ∷ swarms) dm d = ground (arith, put-AllDistinct hash m swarms dm d.1)

prune_swarms_absent :
    (now : ℕ) (hash : Bytes) (swarms : Dict (Dict Peer))
    → Dict.get hash swarms ≡ none
    → Dict.get hash (prune_swarms now swarms) ≡ none
unfolding prune_swarms Dict.get
prune_swarms_absent now hash [] e = refl
prune_swarms_absent now hash ((h, m) ∷ swarms) e =
    ground (arith, prune_swarms_absent now hash swarms)

get-is_empty : (id : Bytes) (m : Dict Peer) → is_empty m ≡ true → Dict.get id m ≡ none
unfolding Dict.get
get-is_empty id [] e = refl
get-is_empty id (x ∷ m) e = cc

pub get-prune_swarms :
    (now : ℕ) (hash id : Bytes) (swarms : Dict (Dict Peer))
    → Distinct swarms
    → AllDistinct swarms
    → Dict.get id (swarm_or_empty (Dict.get hash (prune_swarms now swarms)))
      ≡ kept now (Dict.get id (swarm_or_empty (Dict.get hash swarms)))
unfolding prune_swarms Dict.get
get-prune_swarms now hash id [] d a = refl
get-prune_swarms now hash id ((h, m) ∷ swarms) d a = ground (
  arith,
  ===_iff h hash,
  get-fresh_peers now id m a.0,
  get-is_empty id (fresh_peers now m),
  prune_swarms_absent now h swarms d.0,
  get-prune_swarms now hash id swarms d.1 a.1,
)

pub prune_swarms-Distinct :
    (now : ℕ) (swarms : Dict (Dict Peer))
    → Distinct swarms
    → AllDistinct swarms
    → Distinct (prune_swarms now swarms) × AllDistinct (prune_swarms now swarms)
unfolding prune_swarms
prune_swarms-Distinct now [] d a = (tt, tt)
prune_swarms-Distinct now ((h, m) ∷ swarms) d a = ground (
  arith,
  fresh_peers-Distinct now m a.0,
  prune_swarms_absent now h swarms d.0,
  prune_swarms-Distinct now swarms d.1 a.1,
)

-- No swarm without a peer is left.
abbrev pub NoneEmpty : Dict (Dict Peer) → Type 0
NoneEmpty [] = Unit
NoneEmpty ((h, m) ∷ swarms) = (is_empty m ≡ false) × NoneEmpty swarms

prune_swarms-NoneEmpty : (now : ℕ) (swarms : Dict (Dict Peer)) → NoneEmpty (prune_swarms now swarms)
unfolding prune_swarms
prune_swarms-NoneEmpty now [] = tt
prune_swarms-NoneEmpty now ((h, m) ∷ swarms) = ground (arith, prune_swarms-NoneEmpty now swarms)

-- A peer whose last announce is 3600 seconds old at most.
abbrev pub within_hour : ℕ → Option Peer → Option Peer
within_hour now none = none
within_hour now (some p) = if leb now (p.updated_at + 3600) then some p else none

kept-within_hour : (now : ℕ) (old : Option Peer) → kept now old ≡ within_hour now old
kept-within_hour now none = refl
kept-within_hour now (some p) = ground arith

-- Pruning keeps exactly the peers whose last announce is not more than 3600 seconds old, forgets the
-- others, and leaves no empty swarm.
pub prune_memory_lem :
    (now : ℕ) (s : SwarmState)
    → IsValid s
    → ((hash id : Bytes)
        → get_peer hash id (prune_memory now s) ≡ within_hour now (get_peer hash id s))
      × NoneEmpty (prune_memory now s).peers
unfolding prune_memory get_peer
prune_memory_lem now s v = (
  λ hash id.
      get-prune_swarms now hash id s.peers v.swarms v.members
      ∙ kept-within_hour now (get_peer hash id s),
  prune_swarms-NoneEmpty now s.peers,
)
