-- ===== src/Client/Swarm/Progress.antt =====
-- What every download keeps, what it has done when it returns without an error, and that it goes on.
use weightless.Prelude.{
  ℕ, zero, suc, ◌<◌, ◌≤◌, ◌≡◌, refl, sym, ap, ◌∙◌, true, false, Option, none, some, List, [], ◌∷◌,
  Bytes, ltb, not-ltb→le, if◌then◌else◌, length, length-replicate, replicate, arith, Bool-cases,
  inl, inr,
}
use weightless.Prelude.Dict.{Dict}
use weightless.Client.Storage.{Failure}
use weightless.Client.Swarm.{
  PieceStatus, pending, in_progress, completed, Worker, seeking, resting, free, Config, Swarm,
  add_peer, add_peers, indices, start, start_workers, status_at, finished, start_result, Reach,
  here, next,
}
use weightless.Client.Swarm.Tokens.{
  count, held, in_exam, flying, unfinished, busy, finished_one, count_completed,
  status_at-replicate, count-indices, count_completed-replicate,
}
use weightless.Client.Swarm.Invariant.{Inv, add_peer-Inv}
use weightless.Client.Swarm.Steps.{Step-Inv}

held_none : (i n : ℕ) → held i (replicate n seeking) ≡ 0
held_none i zero = refl
held_none i (suc n) = omega (arith, held_none i n)

unexamined : (i n : ℕ) → in_exam i (replicate n seeking) ≡ 0
unexamined i zero = refl
unexamined i (suc n) = omega (arith, unexamined i n)

flying_none : (n : ℕ) → flying (replicate n seeking) ≡ 0
flying_none zero = refl
flying_none (suc n) = omega (arith, flying_none n)

one_each :
    (i n : ℕ) → unfinished (if ltb i n then some pending else none) ≡ (if ltb i n then 1 else 0)
one_each i n = elim (Bool-cases (ltb i n)) [ inl h ↦ rw h refl | inr h ↦ rw h refl ]

idle_status : (i n : ℕ) → busy (if ltb i n then some pending else none) ≡ 0
idle_status i n = elim (Bool-cases (ltb i n)) [ inl h ↦ rw h refl | inr h ↦ rw h refl ]

add_peers-Inv :
    (c : Config) (addrs : List Bytes) (s : Swarm) (ws : List Worker)
    → Inv c s ws
    → Inv c (add_peers addrs s) ws
unfolding add_peers
add_peers-Inv c [] s ws k = k
add_peers-Inv c (a ∷ addrs) s ws k =
    add_peers-Inv c addrs (add_peer a s) ws (add_peer-Inv c a s ws k)

start-Inv :
    (c : Config) (addrs : List Bytes) (disk : Dict Bytes) (n : ℕ)
    → Inv c (start c addrs disk) (replicate n seeking)
unfolding start
start-Inv c addrs disk n = add_peers-Inv c addrs first (replicate n seeking) (record {
  size = length-replicate c.piece_count pending;
  loose = λ i. record {
    once = omega (arith, at_first i, held_none i n, unexamined i n);
    working = omega (arith, held_none i n);
  };
  tight = λ open_ i. record {
    somewhere = omega (arith, at_first i, held_none i n, unexamined i n);
    at_work = omega (arith, not_busy i);
  };
  flights = sym (flying_none n);
  done = sym (count_completed-replicate c.piece_count);
  ended = λ closed. absurd (ground (arith, closed));
})
  where
    first : Swarm
    first = record {
      pieces = replicate c.piece_count pending;
      work_chan = indices 0 c.piece_count;
      peer_chan = [];
      known_addrs = [];
      in_flight = 0;
      completed_count = 0;
      confirms = 0;
      watch = resting;
      hand = free;
      exhausted = false;
      cancelled = false;
      collecting = true;
      failure = none;
      disk = disk;
    }

    at_first :
        (i : ℕ)
        → count i (indices 0 c.piece_count)
          ≡ unfinished (status_at (replicate c.piece_count pending) i)
    at_first i =
        let queued : count i (indices 0 c.piece_count) ≡ (if ltb i c.piece_count then 1 else 0) =
          ground (arith, count-indices i 0 c.piece_count) in
        queued
        ∙ sym (ap unfinished (status_at-replicate c.piece_count i) ∙ one_each i c.piece_count)

    not_busy : (i : ℕ) → busy (status_at (replicate c.piece_count pending) i) ≡ 0
    not_busy i = ap busy (status_at-replicate c.piece_count i) ∙ idle_status i c.piece_count

later-Inv :
    {c : Config} {s : Swarm} {ws : List Worker} {t : Swarm} {ws' : List Worker}
    → Inv c s ws
    → Reach c s ws t ws'
    → Inv c t ws'
later-Inv k here = k
later-Inv k (next s' s'' ws' ws'' r st) = Step-Inv st (later-Inv k r)

-- In every state that a download reaches, each piece waits in one place at most (in the queue once, with one worker that took it from the queue and has not looked at its status, or with a collection loop that is about to queue it again) or is in progress in one place at most (with one worker, or with the collection loop until that marks the piece as completed); both cannot be, and a completed piece is neither. Until the context is done, each piece that is not completed is in one of those places, and it is in progress only when a worker or the collection loop has it. The count in flight is the number of workers that were counted for a dial and have not lost or left their connection. The count of completed pieces, with the piece that the collection loop has marked and not counted yet, is the number of pieces with that status.
pub Reach-Inv :
    {c : Config} {s : Swarm} {ws : List Worker} (addrs : List Bytes) (disk : Dict Bytes)
    (max_workers : ℕ)
    → Reach c (start c addrs disk) (start_workers max_workers) s ws
    → Inv c s ws
Reach-Inv {c} addrs disk max_workers r =
    later-Inv (start-Inv c addrs disk (if ltb max_workers 1 then 1 else max_workers)) r

finished_one_le : (p : PieceStatus) → finished_one p ≤ 1
finished_one_le pending = omega arith
finished_one_le in_progress = omega arith
finished_one_le completed = omega arith

count_completed-le : (ps : List PieceStatus) → count_completed ps ≤ length ps
count_completed-le [] = omega arith
count_completed-le (p ∷ ps) = omega (arith, count_completed-le ps, finished_one_le p)

is_completed : (p : PieceStatus) → 1 ≤ finished_one p → p ≡ completed
is_completed pending h = absurd (omega (arith, h))
is_completed in_progress h = absurd (omega (arith, h))
is_completed completed h = refl

all_completed :
    (ps : List PieceStatus) (i : ℕ)
    → length ps ≤ count_completed ps
    → i < length ps
    → status_at ps i ≡ some completed
all_completed [] i h k = absurd (omega (arith, k))
all_completed (p ∷ ps) zero h k = ap some (is_completed p (omega (arith, h, count_completed-le ps)))
all_completed (p ∷ ps) (suc i) h k =
    all_completed ps i (omega (arith, h, finished_one_le p)) (omega (arith, k))

finished-le :
    (c : Config) (s : Swarm) (f : Option Failure)
    → start_result c s f ≡ finished
    → c.piece_count ≤ s.completed_count
finished-le c s (some e) h = cc
finished-le c s none h = elim (Bool-cases (ltb s.completed_count c.piece_count)) [
  | inl less ↦ elim (Bool-cases s.exhausted) [
    | inl ex ↦ absurd (ground (arith, h, less, ex))
    | inr ex ↦ absurd (ground (arith, h, less, ex))
  ]
  | inr enough ↦ not-ltb→le s.completed_count c.piece_count enough
]

-- Start returns without an error only when every piece of the torrent has the status of completed.
pub start_result-completed :
    {c : Config} {s : Swarm} {ws : List Worker} (addrs : List Bytes) (disk : Dict Bytes)
    (max_workers : ℕ)
    → Reach c (start c addrs disk) (start_workers max_workers) s ws
    → start_result c s s.failure ≡ finished
    → (i : ℕ) → i < c.piece_count
    → status_at s.pieces i ≡ some completed
start_result-completed {c} {s} addrs disk max_workers r e i h =
    let k = Reach-Inv addrs disk max_workers r in
    let enough = finished-le c s s.failure e in
    all_completed s.pieces i (omega (arith, k.size, k.done, enough)) (omega (arith, k.size, h))
