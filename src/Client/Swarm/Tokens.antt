-- ===== src/Client/Swarm/Tokens.antt =====
-- Where the pieces are: an index in the queue, or with a worker, and what a step does to their numbers.
use weightless.Prelude.{
  ℕ, zero, suc, ◌+◌, ◌≡◌, refl, ap, Option, none, some, List, [], ◌∷◌, ◌++◌, Bytes, ltb, ◌==◌,
  if◌then◌else◌, set, replicate, arith,
}
use weightless.Client.Swarm.{
  PieceStatus, pending, in_progress, completed, Worker, seeking, gone, taken, dialing, connected,
  examining, fetching, harvesting, delivering, Hand, free, finishing, marked, requeuing, failing,
  wrote, holding, status_at, indices,
}

abbrev pub same : ℕ → ℕ → ℕ
same j i = if j == i then 1 else 0

abbrev pub count : ℕ → List ℕ → ℕ
count i [] = 0
count i (j ∷ work) = same j i + count i work

-- Whether the worker has the piece, in progress
abbrev pub holds : ℕ → Worker → ℕ
holds i seeking = 0
holds i gone = 0
holds i (taken addr) = 0
holds i (dialing addr) = 0
holds i (connected addr) = 0
holds i (examining addr j) = 0
holds i (fetching addr j) = same j i
holds i (harvesting addr j result pex) = same j i
holds i (delivering conn j result) = same j i

abbrev pub held : ℕ → List Worker → ℕ
held i [] = 0
held i (w ∷ ws) = holds i w + held i ws

-- Whether the worker has the index from the queue, and has not marked the piece yet
abbrev pub examines_it : ℕ → Worker → ℕ
examines_it i seeking = 0
examines_it i gone = 0
examines_it i (taken addr) = 0
examines_it i (dialing addr) = 0
examines_it i (connected addr) = 0
examines_it i (examining addr j) = same j i
examines_it i (fetching addr j) = 0
examines_it i (harvesting addr j result pex) = 0
examines_it i (delivering conn j result) = 0

abbrev pub in_exam : ℕ → List Worker → ℕ
in_exam i [] = 0
in_exam i (w ∷ ws) = examines_it i w + in_exam i ws

-- Whether the collection loop has the piece, in progress
abbrev pub hand_holds : ℕ → Hand → ℕ
hand_holds i free = 0
hand_holds i finishing = 0
hand_holds i marked = 0
hand_holds i (requeuing j) = 0
hand_holds i (failing j) = same j i
hand_holds i (wrote j) = same j i
hand_holds i (holding j result) = same j i

-- Whether it is about to queue the piece
abbrev pub hand_queues : ℕ → Hand → ℕ
hand_queues i free = 0
hand_queues i finishing = 0
hand_queues i marked = 0
hand_queues i (requeuing j) = same j i
hand_queues i (failing j) = 0
hand_queues i (wrote j) = 0
hand_queues i (holding j result) = 0

-- Whether it has a completed piece that is not counted yet
abbrev pub uncounted : Hand → ℕ
uncounted free = 0
uncounted finishing = 0
uncounted marked = 1
uncounted (requeuing j) = 0
uncounted (failing j) = 0
uncounted (wrote j) = 0
uncounted (holding j result) = 0

-- How often the piece waits for a worker to mark it
abbrev pub waits : ℕ → List ℕ → List Worker → Hand → ℕ
waits i work ws hand = count i work + (in_exam i ws + hand_queues i hand)

-- How many have it in progress
abbrev pub in_work : ℕ → List Worker → Hand → ℕ
in_work i ws hand = held i ws + hand_holds i hand

abbrev pub conn_held : Option Bytes → ℕ
conn_held none = 0
conn_held (some addr) = 1

-- Whether the worker counts as in flight
abbrev pub flies : Worker → ℕ
flies seeking = 0
flies gone = 0
flies (taken addr) = 0
flies (dialing addr) = 1
flies (connected addr) = 1
flies (examining addr j) = 1
flies (fetching addr j) = 1
flies (harvesting addr j result pex) = 1
flies (delivering conn j result) = conn_held conn

abbrev pub flying : List Worker → ℕ
flying [] = 0
flying (w ∷ ws) = flies w + flying ws

-- Whether a piece of the status is still to be written
abbrev pub unfinished : Option PieceStatus → ℕ
unfinished none = 0
unfinished (some pending) = 1
unfinished (some in_progress) = 1
unfinished (some completed) = 0

abbrev pub busy : Option PieceStatus → ℕ
busy none = 0
busy (some pending) = 0
busy (some in_progress) = 1
busy (some completed) = 0

abbrev pub finished_one : PieceStatus → ℕ
finished_one pending = 0
finished_one in_progress = 0
finished_one completed = 1

abbrev pub count_completed : List PieceStatus → ℕ
count_completed [] = 0
count_completed (p ∷ pieces) = finished_one p + count_completed pieces

abbrev pub overwritten : PieceStatus → Option PieceStatus → Option PieceStatus
overwritten v none = none
overwritten v (some p) = some v

pub held-append :
    (i : ℕ) (before : List Worker) (w : Worker) (after : List Worker)
    → held i (before ++ w ∷ after) ≡ holds i w + held i (before ++ after)
held-append i [] w after = refl
held-append i (v ∷ before) w after = omega (arith, held-append i before w after)

pub in_exam-append :
    (i : ℕ) (before : List Worker) (w : Worker) (after : List Worker)
    → in_exam i (before ++ w ∷ after) ≡ examines_it i w + in_exam i (before ++ after)
in_exam-append i [] w after = refl
in_exam-append i (v ∷ before) w after = omega (arith, in_exam-append i before w after)

pub flying-append :
    (before : List Worker) (w : Worker) (after : List Worker)
    → flying (before ++ w ∷ after) ≡ flies w + flying (before ++ after)
flying-append [] w after = refl
flying-append (v ∷ before) w after = omega (arith, flying-append before w after)

pub count-append :
    (i : ℕ) (work : List ℕ) (j : ℕ) → count i (work ++ j ∷ []) ≡ same j i + count i work
count-append i [] j = refl
count-append i (k ∷ work) j = omega (arith, count-append i work j)

pub status_at-set :
    (pieces : List PieceStatus) (j i : ℕ) (v : PieceStatus)
    → status_at (set pieces j v) i
      ≡ (if j == i then overwritten v (status_at pieces i) else status_at pieces i)
status_at-set [] j i v = ground arith
status_at-set (p ∷ pieces) zero zero v = refl
status_at-set (p ∷ pieces) zero (suc i) v = ground arith
status_at-set (p ∷ pieces) (suc j) zero v = ground arith
status_at-set (p ∷ pieces) (suc j) (suc i) v = ground (arith, status_at-set pieces j i v)

the_status : {p q : PieceStatus} → some p ≡ some q → p ≡ q
the_status h = cc

-- What a new status does to the number of completed pieces
pub count_completed-set :
    (pieces : List PieceStatus) (j : ℕ) (old v : PieceStatus)
    → status_at pieces j ≡ some old
    → count_completed (set pieces j v) + finished_one old ≡ count_completed pieces + finished_one v
count_completed-set [] j old v h = cc
count_completed-set (p ∷ pieces) zero old v h =
    let same_one : finished_one p ≡ finished_one old = ap finished_one (the_status h) in
    omega (arith, same_one)
count_completed-set (p ∷ pieces) (suc j) old v h =
    omega (arith, count_completed-set pieces j old v h)

-- The statuses and the queue that a download begins with
pub status_at-replicate :
    (n i : ℕ) → status_at (replicate n pending) i ≡ (if ltb i n then some pending else none)
status_at-replicate zero i = ground arith
status_at-replicate (suc n) zero = ground arith
status_at-replicate (suc n) (suc i) = ground (arith, status_at-replicate n i)

pub count-indices :
    (i start n : ℕ)
    → count i (indices start n) ≡ (if ltb i start then 0 else if ltb i (start + n) then 1 else 0)
count-indices i start zero = ground arith
count-indices i start (suc n) = ground (arith, count-indices i (suc start) n)

pub count_completed-replicate : (n : ℕ) → count_completed (replicate n pending) ≡ 0
count_completed-replicate zero = refl
count_completed-replicate (suc n) = omega (arith, count_completed-replicate n)
