-- ===== src/Client/Swarm/Liveness.antt =====
-- A download that is not done goes on, or is one that the supervisor ends.
use weightless.Prelude.{
  ℕ, suc, ◌<◌, ◌≤◌, ◌≡◌, ◌⊎◌, refl, ap, true, false, List, [], ◌∷◌, Bytes, length, arith, inl, inr,
}
use weightless.Prelude.Dict.{Dict}
use weightless.Client.Swarm.{
  PieceStatus, pending, in_progress, completed, Worker, free, Config, Swarm, start, start_workers,
  status_at, Reach,
}
use weightless.Client.Swarm.Tokens.{
  count, unfinished, count_completed, uncounted, hand_holds, hand_queues,
}
use weightless.Client.Swarm.Invariant.{Inv}
use weightless.Client.Swarm.Awake.{Reach-IsAwake, awake-start_workers}
use weightless.Client.Swarm.Progress.{Reach-Inv}
use weightless.Client.Swarm.Workers.{
  is_active, is_connected, is_seeking, NoneOf, none_held, none_examined, none_flying, none_awake,
  find,
}
use weightless.Client.Swarm.Moves.{
  WorkerMoves, LoopMoves, active-WorkerMoves, connected-WorkerMoves, seeking-WorkerMoves,
  busy-LoopMoves,
}

-- No address is left, and no worker dials or holds a connection.
pub record IsStalled (s : Swarm) : Type 0 where
  pub no_address : s.peer_chan ≡ []
  pub none_flies : s.in_flight ≡ 0

unfinished_piece :
    (ps : List PieceStatus)
    → count_completed ps < length ps
    → (i : ℕ) × (1 ≤ unfinished (status_at ps i))
unfinished_piece [] h = absurd (omega (arith, h))
unfinished_piece (pending ∷ ps) h = (0, omega arith)
unfinished_piece (in_progress ∷ ps) h = (0, omega arith)
unfinished_piece (completed ∷ ps) h =
    let (i, rest) = unfinished_piece ps (omega (arith, h)) in (suc i, rest)

-- Without an active worker, and with a collection loop that waits, the pieces that are left are in the queue.
queue_front :
    (c : Config) (s : Swarm) (ws : List Worker)
    → Inv c s ws
    → s.cancelled ≡ false
    → s.completed_count < c.piece_count
    → s.hand ≡ free
    → NoneOf is_active ws
    → (j : ℕ) × (work : List ℕ) × (s.work_chan ≡ j ∷ work)
queue_front c s ws k open_ less waiting idle =
    let (i, left) =
      unfinished_piece s.pieces (omega (arith, k.size, k.done, less, ap uncounted waiting)) in
    go s.work_chan refl i (
      omega (
        arith,
        (k.tight open_ i).somewhere,
        left,
        none_held i ws idle,
        none_examined i ws idle,
        ap (hand_holds i) waiting,
        ap (hand_queues i) waiting,
      ))
  where
    go :
        (work : List ℕ)
        → s.work_chan ≡ work
        → (i : ℕ) → 1 ≤ count i s.work_chan
        → (j : ℕ) × (rest : List ℕ) × (s.work_chan ≡ j ∷ rest)
    go [] e i h = absurd (omega (arith, h, ap (count i) e))
    go (j ∷ rest) e i h = (j, rest, e)

-- With a collection loop that waits for a result
workers_go_on :
    {c : Config} {s : Swarm} {ws : List Worker} (addrs : List Bytes) (disk : Dict Bytes)
    (max_workers : ℕ)
    → Reach c (start c addrs disk) (start_workers max_workers) s ws
    → s.cancelled ≡ false
    → s.completed_count < c.piece_count
    → s.hand ≡ free
    → IsStalled s ⊎ WorkerMoves c s ws
workers_go_on {c} {s} {ws} addrs disk max_workers r open_ less f =
    let k = Reach-Inv addrs disk max_workers r in
    let listens : s.collecting ≡ true = ground (arith, k.ended, open_) in
    elim (find is_active ws) [
      | inl a ↦ inr (active-WorkerMoves c s ws a.before a.after a.it a.there a.is_it f listens)
      | inr idle ↦
          let (j, work, q) = queue_front c s ws k open_ less f idle in
          elim (find is_connected ws) [
            | inl a ↦
                inr (connected-WorkerMoves c s ws a.before a.after a.it j work a.there a.is_it q)
            | inr apart ↦
                waiting idle apart (omega (arith, k.flights, none_flying ws idle apart)) s.peer_chan
                  refl
          ]
    ]
  where
    waiting :
        NoneOf is_active ws
        → NoneOf is_connected ws
        → s.in_flight ≡ 0
        → (peers : List Bytes) → s.peer_chan ≡ peers
        → IsStalled s ⊎ WorkerMoves c s ws
    waiting idle apart none_fly [] e = inl (record { no_address = e; none_flies = none_fly })
    waiting idle apart none_fly (addr ∷ peers) e = elim (find is_seeking ws) [
      | inl a ↦ inr (seeking-WorkerMoves c s ws a.before a.after a.it addr peers a.there a.is_it e)
      | inr asleep ↦
          let up = Reach-IsAwake (λ o. awake-start_workers max_workers) r open_ in
          absurd (omega (arith, up, none_awake ws idle apart asleep))
    ]

-- While the context is not done and not all pieces are counted as completed, the collection loop can go on, or one of the workers can, to another place than before, or the swarm is stalled, which the tests of superviseExhaustion look for: no address is left, and no worker counts as in flight.
pub IsStalled-or-Moves :
    {c : Config} {s : Swarm} {ws : List Worker} (addrs : List Bytes) (disk : Dict Bytes)
    (max_workers : ℕ)
    → Reach c (start c addrs disk) (start_workers max_workers) s ws
    → s.cancelled ≡ false
    → s.completed_count < c.piece_count
    → IsStalled s ⊎ WorkerMoves c s ws ⊎ LoopMoves c s ws
IsStalled-or-Moves {c} {s} {ws} addrs disk max_workers r open_ less =
    elim (busy-LoopMoves c s ws s.hand refl (Reach-Inv addrs disk max_workers r)) [
      | inr moves ↦ inr (inr moves)
      | inl f ↦ elim (workers_go_on addrs disk max_workers r open_ less f) [
        | inl stalled ↦ inl stalled
        | inr moves ↦ inr (inl moves)
      ]
    ]
