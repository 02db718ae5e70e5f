-- ===== src/Client/Swarm/Moves.antt =====
-- The moves of the workers and of the collection loop that wait for nothing that is not there.
use weightless.Prelude.{
  ℕ, ◌+◌, ◌*◌, ◌≡◌, ◌≢◌, ◌⊎◌, sym, ap, ◌∙◌, Bool, true, false, Option, none, some, List, [], ◌∷◌,
  ◌++◌, Bytes, ltb, ◌==◌, if◌then◌else◌, length, arith, Bool-cases, inl, inr,
}
use weightless.Client.Storage.{written, failed, Outcome, write_piece}
use weightless.Client.Swarm.{
  Worker, seeking, gone, taken, dialing, connected, examining, fetching, harvesting, delivering,
  Hand, free, finishing, marked, requeuing, failing, wrote, holding, Config, Swarm, take_address,
  count_in_flight, add_peer, status_at, is_pending, examined, examined_worker, harvested,
  harvested_worker, delivered_worker, unmark, requeue, stored, store, mark, count_completion, stop,
  Step, takes, counts, dials, pulls, examines, fetches, offers, harvests, receives, unmarks,
  requeues, stores, marks, completes, fails, finishes,
}
use weightless.Client.Swarm.Invariant.{Inv}
use weightless.Client.Swarm.Room.{has_room}
use weightless.Client.Swarm.Workers.{is_active, is_connected, is_seeking}

-- A step in which one of the workers gets to another place.
pub record WorkerMoves (c : Config) (s : Swarm) (ws : List Worker) : Type 0 where
  pub before : List Worker
  pub after : List Worker
  pub old : Worker
  pub new : Worker
  pub later : Swarm
  pub there : ws ≡ before ++ old ∷ after
  pub other : old ≢ new
  pub step : Step c s (before ++ old ∷ after) later (before ++ new ∷ after)

-- A step in which the collection loop does.
pub record LoopMoves (c : Config) (s : Swarm) (ws : List Worker) : Type 0 where
  pub later : Swarm
  pub other : s.hand ≢ later.hand
  pub step : Step c s ws later ws

not_delivering :
    (addr : Option Bytes) (conn : Option Bytes) (j : ℕ) (result : Option Bytes)
    → delivering conn j result ≢ delivered_worker addr
not_delivering none conn j result e = cc
not_delivering (some a) conn j result e = cc

not_harvesting :
    (addr : Bytes) (j : ℕ) (result : Option Bytes) (pex : List Bytes)
    → harvesting addr j result pex ≢ harvested_worker addr j result
not_harvesting addr j none pex e = cc
not_harvesting addr j (some piece) pex e = cc

not_examining :
    (c : Config) (s : Swarm) (addr : Bytes) (j : ℕ) → examining addr j ≢ examined_worker c addr j s
not_examining c s addr j = elim (Bool-cases (is_pending (status_at s.pieces j))) [
  | inl p ↦ elim (Bool-cases (ltb c.hash_bytes ((j + 1) * 20))) [
    | inl short ↦ rw (p, short) (λ e. cc)
    | inr long ↦ rw (p, long) (λ e. cc)
  ]
  | inr p ↦ rw p (λ e. cc)
]

-- How many addresses the worker has still to offer to the pool
abbrev to_offer : Worker → ℕ
to_offer (harvesting addr j result pex) = length pex
to_offer w = 0

pub active-WorkerMoves :
    (c : Config) (s : Swarm) (ws before after : List Worker) (w : Worker)
    → ws ≡ before ++ w ∷ after
    → is_active w ≡ true
    → s.hand ≡ free
    → s.collecting ≡ true
    → WorkerMoves c s ws
active-WorkerMoves c s ws before after seeking e h f open_ = absurd cc
active-WorkerMoves c s ws before after gone e h f open_ = absurd cc
active-WorkerMoves c s ws before after (connected addr) e h f open_ = absurd cc
active-WorkerMoves c s ws before after (taken addr) e h f open_ = record {
  before = before;
  after = after;
  old = taken addr;
  new = dialing addr;
  later = count_in_flight s;
  there = e;
  other = λ d. cc;
  step = counts s before after addr;
}
active-WorkerMoves c s ws before after (dialing addr) e h f open_ = record {
  before = before;
  after = after;
  old = dialing addr;
  new = connected addr;
  later = s;
  there = e;
  other = λ d. cc;
  step = dials s before after addr;
}
active-WorkerMoves c s ws before after (examining addr j) e h f open_ = record {
  before = before;
  after = after;
  old = examining addr j;
  new = examined_worker c addr j s;
  later = examined j s;
  there = e;
  other = not_examining c s addr j;
  step = examines s before after addr j;
}
active-WorkerMoves c s ws before after (fetching addr j) e h f open_ = record {
  before = before;
  after = after;
  old = fetching addr j;
  new = harvesting addr j none [];
  later = s;
  there = e;
  other = λ d. cc;
  step = fetches s before after addr j none [];
}
active-WorkerMoves c s ws before after (harvesting addr j result []) e h f open_ = record {
  before = before;
  after = after;
  old = harvesting addr j result [];
  new = harvested_worker addr j result;
  later = harvested result s;
  there = e;
  other = not_harvesting addr j result [];
  step = harvests s before after addr j result;
}
active-WorkerMoves c s ws before after (harvesting addr j result (a ∷ pex)) e h f open_ = record {
  before = before;
  after = after;
  old = harvesting addr j result (a ∷ pex);
  new = harvesting addr j result pex;
  later = add_peer a s;
  there = e;
  other = λ d. absurd (omega (arith, ap to_offer d));
  step = offers s before after addr j result a pex;
}
active-WorkerMoves c s ws before after (delivering conn j result) e h f open_ = record {
  before = before;
  after = after;
  old = delivering conn j result;
  new = delivered_worker conn;
  later = record s { hand = holding j result };
  there = e;
  other = not_delivering conn conn j result;
  step = receives s before after conn j result open_ f;
}

pub connected-WorkerMoves :
    (c : Config) (s : Swarm) (ws before after : List Worker) (w : Worker) (j : ℕ) (work : List ℕ)
    → ws ≡ before ++ w ∷ after
    → is_connected w ≡ true
    → s.work_chan ≡ j ∷ work
    → WorkerMoves c s ws
connected-WorkerMoves c s ws before after seeking j work e h q = absurd cc
connected-WorkerMoves c s ws before after gone j work e h q = absurd cc
connected-WorkerMoves c s ws before after (taken addr) j work e h q = absurd cc
connected-WorkerMoves c s ws before after (dialing addr) j work e h q = absurd cc
connected-WorkerMoves c s ws before after (examining addr i) j work e h q = absurd cc
connected-WorkerMoves c s ws before after (fetching addr i) j work e h q = absurd cc
connected-WorkerMoves c s ws before after (harvesting addr i result pex) j work e h q = absurd cc
connected-WorkerMoves c s ws before after (delivering conn i result) j work e h q = absurd cc
connected-WorkerMoves c s ws before after (connected addr) j work e h q = record {
  before = before;
  after = after;
  old = connected addr;
  new = examining addr j;
  later = record s { work_chan = work };
  there = e;
  other = λ d. cc;
  step = pulls s before after addr j work q;
}

pub seeking-WorkerMoves :
    (c : Config) (s : Swarm) (ws before after : List Worker) (w : Worker) (addr : Bytes)
    (peers : List Bytes)
    → ws ≡ before ++ w ∷ after
    → is_seeking w ≡ true
    → s.peer_chan ≡ addr ∷ peers
    → WorkerMoves c s ws
seeking-WorkerMoves c s ws before after gone addr peers e h q = absurd cc
seeking-WorkerMoves c s ws before after (connected a) addr peers e h q = absurd cc
seeking-WorkerMoves c s ws before after (taken a) addr peers e h q = absurd cc
seeking-WorkerMoves c s ws before after (dialing a) addr peers e h q = absurd cc
seeking-WorkerMoves c s ws before after (examining a i) addr peers e h q = absurd cc
seeking-WorkerMoves c s ws before after (fetching a i) addr peers e h q = absurd cc
seeking-WorkerMoves c s ws before after (harvesting a i result pex) addr peers e h q = absurd cc
seeking-WorkerMoves c s ws before after (delivering conn i result) addr peers e h q = absurd cc
seeking-WorkerMoves c s ws before after seeking addr peers e h q = record {
  before = before;
  after = after;
  old = seeking;
  new = taken addr;
  later = take_address peers s;
  there = e;
  other = λ d. cc;
  step = takes s before after addr peers q;
}

not_holding :
    (j i : ℕ) (piece : Bytes) (s : Swarm) (out : Outcome)
    → holding j (some piece) ≢ (stored i s out).hand
not_holding j i piece s (failed f) d = cc
not_holding j i piece s (written disk) d = cc

not_marked : (last : Bool) → marked ≢ (if last then finishing else free)
not_marked true d = cc
not_marked false d = cc

-- A collection loop that does not wait for a result goes on.
pub busy-LoopMoves :
    (c : Config) (s : Swarm) (ws : List Worker) (h : Hand)
    → s.hand ≡ h
    → Inv c s ws
    → (s.hand ≡ free) ⊎ LoopMoves c s ws
busy-LoopMoves c s ws free e k = inl e
busy-LoopMoves c s ws finishing e k =
    inr (record { later = stop s; other = λ d. cc; step = finishes s ws e })
busy-LoopMoves c s ws marked e k = inr (record {
  later = count_completion c s;
  other = λ d. not_marked (s.completed_count + 1 == c.piece_count) (sym e ∙ d);
  step = completes s ws e;
})
busy-LoopMoves c s ws (requeuing j) e k = inr (record {
  later = requeue j s;
  other = λ d. cc;
  step = requeues s ws j e (has_room c s ws j k e);
})
busy-LoopMoves c s ws (failing j) e k =
    inr (record { later = stop s; other = λ d. cc; step = fails s ws j e })
busy-LoopMoves c s ws (wrote j) e k =
    inr (record { later = mark j s; other = λ d. cc; step = marks s ws j e })
busy-LoopMoves c s ws (holding j none) e k =
    inr (record { later = unmark j s; other = λ d. cc; step = unmarks s ws j e })
busy-LoopMoves c s ws (holding j (some piece)) e k = inr (record {
  later = store c j piece s;
  other = λ d.
      not_holding j j piece s (write_piece c.io_fails c.files j c.piece_length piece s.disk)
        (sym e ∙ d);
  step = stores s ws j piece e;
})
