-- ===== src/Tracker/State/Tests.antt =====
-- Runs of the swarm state.
use mathlib.Core.List.Perm
use weightless.Prelude.{ℕ, ◌+◌, ◌≡◌, refl, List, [], ◌∷◌, Bytes, codes, length, take, min}
use weightless.Prelude.Dict
use weightless.Prelude.Dict.{Dict}
use weightless.Prelude.Sums.{total}
use weightless.Tracker.State.{
  Peer, SwarmState, init, swarm, get_peer, get_peers, get_counts, prune_memory,
}
use weightless.Tracker.State.Swarms.{
  IsVisit, others, is_seeder, is_leecher, get_peers_lem, get_counts_lem,
}
use weightless.Tracker.State.Prune.{IsValid, NoneEmpty, within_hour, prune_memory_lem}
use weightless.Tracker.State.History.{
  Event, updated, removed, pruned, apply_events, after_events, apply_events_lem,
}

abbrev peer : ℕ → ℕ → Peer
peer at left = record {
  addr = codes "10.0.0.1:6881";
  updated_at = at;
  left = left;
  downloaded = 0;
  uploaded = 0;
}

abbrev state : SwarmState
state = record init {
  peers = (codes "aa", (codes "p", peer 100 0) ∷ (codes "q", peer 9000 5) ∷ []) ∷ [];
}

state-IsValid : IsValid state
state-IsValid =
    unfold Dict.get in
    record { swarms = (refl, tt); members = ((refl, (refl, tt)), tt); users = tt }

in_order : IsVisit (λ m. m)
in_order m = Perm.refl m

get_peers_lem_example :
    (get_peers (λ m. m) (codes "aa") (codes "p") 50 state
      ≡ take 50 (others (codes "p") (swarm (codes "aa") state)))
    × (length (get_peers (λ m. m) (codes "aa") (codes "p") 50 state)
        ≡ min 50 (length (others (codes "p") (swarm (codes "aa") state))))
get_peers_lem_example = get_peers_lem (λ m. m) (codes "aa") (codes "p") 50 state in_order

get_counts_lem_example :
    (get_counts (λ m. m) (codes "aa") state
      ≡ (total is_seeder (swarm (codes "aa") state), total is_leecher (swarm (codes "aa") state)))
    × ((get_counts (λ m. m) (codes "aa") state).0 + (get_counts (λ m. m) (codes "aa") state).1
        ≡ length (swarm (codes "aa") state))
get_counts_lem_example = get_counts_lem (λ m. m) (codes "aa") state in_order

prune_memory_lem_example :
    ((hash id : Bytes)
      → get_peer hash id (prune_memory 9000 state) ≡ within_hour 9000 (get_peer hash id state))
    × NoneEmpty (prune_memory 9000 state).peers
prune_memory_lem_example = prune_memory_lem 9000 state state-IsValid

abbrev events : List Event
events =
    updated (codes "aa") (codes "r") (peer 9000 0)
    ∷ removed (codes "aa") (codes "q")
    ∷ pruned 9000
    ∷ []

apply_events_lem_example :
    IsValid (apply_events events state)
    × ((hash id : Bytes)
        → get_peer hash id (apply_events events state)
          ≡ after_events hash id events (get_peer hash id state))
apply_events_lem_example = apply_events_lem events state state-IsValid
