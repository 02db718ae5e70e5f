-- ===== src/Client/Swarm.antt =====
-- internal/client/swarm.go: the goroutines of a download as a state and its steps. A step is one
-- operation on a channel or on a field that another goroutine reads: what a goroutine does between two
-- of them is its place, `Worker` for a worker, `Hand` for the collection loop and `Watch` for the
-- supervisor, so that others may step in between. Dialing a peer and downloading a piece
-- (Client/Download.antt) end in any way. workChan and peerChan are lists; resultChan has no buffer,
-- so a worker that delivers waits for the collection loop. The pending check and the new status of a
-- piece are one step under the lock s.mu, as an address of AddPeers is under s.poolMu.
pub mod Tokens
pub mod Pieces
pub mod Invariant
pub mod Working
pub mod Collecting
pub mod Steps
pub mod Awake
pub mod Room
pub mod Progress
pub mod Workers
pub mod Moves
pub mod Liveness
mod Tests
use weightless.Prelude.{
  ℕ, zero, suc, ◌+◌, ◌-◌, ◌*◌, ◌<◌, ◌≤◌, ◌≡◌, Bool, true, false, not, ◌&&◌, Option, none, some,
  List, [], ◌∷◌, ◌++◌, Bytes, ◌===◌, ltb, leb, ◌==◌, if◌then◌else◌, length, get_elem?, set,
  replicate,
}
use weightless.Prelude.Dict.{Dict}
use weightless.Client.Storage.{FileEntry, Failure, written, failed, Outcome, write_piece}

pub data PieceStatus : Type 0 where
  pending in_progress completed : PieceStatus

-- `seeking` has no connection, `taken` an address from the pool that is not counted as in flight yet,
-- and `dialing` one that is. `examining` has an index from workChan, `harvesting` the result of a
-- download and the exchanged peers that are still to be offered to the pool, and `delivering` sends a
-- result, with or without a connection.
pub data Worker : Type 0 where
  seeking gone : Worker
  taken dialing connected : Bytes → Worker
  examining fetching : Bytes → ℕ → Worker
  harvesting : Bytes → ℕ → Option Bytes → List Bytes → Worker
  delivering : Option Bytes → ℕ → Option Bytes → Worker

-- The collection loop: waiting for a result, holding one, about to queue a lost piece again, behind a
-- write that failed (`failing`), behind one that succeeded (`wrote`), behind the new status (`marked`),
-- or about to cancel the context after the last piece.
pub data Hand : Type 0 where
  free finishing marked : Hand
  requeuing failing wrote : ℕ → Hand
  holding : ℕ → Option Bytes → Hand

-- The supervisor: between two polls, or behind the tests of a poll that have held so far.
pub data Watch : Type 0 where
  resting no_peer nothing_in_flight : Watch

pub record Config : Type 0 where
  pub piece_count : ℕ
  pub piece_length : ℕ
  pub hash_bytes : ℕ
  pub files : List FileEntry
  pub io_fails : Bytes → Bool

-- `collecting` until the collection loop breaks; `confirms` is the supervisor's.
pub record Swarm : Type 0 where
  pub pieces : List PieceStatus
  pub work_chan : List ℕ
  pub peer_chan : List Bytes
  pub known_addrs : List Bytes
  pub in_flight : ℕ
  pub completed_count : ℕ
  pub confirms : ℕ
  pub watch : Watch
  pub hand : Hand
  pub exhausted : Bool
  pub cancelled : Bool
  pub collecting : Bool
  pub failure : Option Failure
  pub disk : Dict Bytes

abbrev pub peer_pool_headroom : ℕ
peer_pool_headroom = 256

abbrev pub exhaustion_confirms : ℕ
exhaustion_confirms = 2

abbrev pub is_known : Bytes → List Bytes → Bool
is_known a [] = false
is_known a (b ∷ known) = if b === a then true else is_known a known

-- A full pool drops the address.
abbrev pub add_peer : Bytes → Swarm → Swarm
add_peer a s =
    if is_known a s.known_addrs
    then s
    else if ltb (length s.peer_chan) peer_pool_headroom
    then record s { peer_chan = s.peer_chan ++ a ∷ []; known_addrs = a ∷ s.known_addrs }
    else s

pub add_peers : List Bytes → Swarm → Swarm
add_peers [] s = s
add_peers (a ∷ addrs) s = add_peers addrs (add_peer a s)

abbrev pub indices : ℕ → ℕ → List ℕ
indices i zero = []
indices i (suc n) = i ∷ indices (suc i) n

-- NewSwarm, and Start up to the start of the workers
unfoldable pub start : Config → List Bytes → Dict Bytes → Swarm
unfolding add_peers
start c addrs disk = add_peers addrs (record {
  pieces = replicate c.piece_count pending;
  work_chan = indices 0 c.piece_count;
  peer_chan = [];
  known_addrs = [];
  in_flight = 0;
  completed_count = 0;
  confirms = 0;
  watch = resting;
  hand = free;
  exhausted = false;
  cancelled = false;
  collecting = true;
  failure = none;
  disk = disk;
})

-- At least one worker
abbrev pub start_workers : ℕ → List Worker
start_workers max_workers = replicate (if ltb max_workers 1 then 1 else max_workers) seeking

-- acquireConn: an address is taken, and then counted as in flight, before the dial.
abbrev pub take_address : List Bytes → Swarm → Swarm
take_address peers s = record s { peer_chan = peers }

abbrev pub count_in_flight : Swarm → Swarm
count_in_flight s = record s { in_flight = s.in_flight + 1 }

abbrev pub release : Swarm → Swarm
release s = record s { in_flight = s.in_flight - 1 }

abbrev pub status_at : List PieceStatus → ℕ → Option PieceStatus
status_at pieces i = get_elem? pieces i

abbrev pub is_pending : Option PieceStatus → Bool
is_pending (some pending) = true
is_pending status = false

-- What the worker does with an index from workChan, and what it leaves in the swarm.
abbrev pub examined_worker : Config → Bytes → ℕ → Swarm → Worker
examined_worker c addr index s =
    if not (is_pending (status_at s.pieces index))
    then connected addr
    else if ltb c.hash_bytes ((index + 1) * 20)
    then delivering (some addr) index none
    else fetching addr index

abbrev pub examined : ℕ → Swarm → Swarm
examined index s =
    if not (is_pending (status_at s.pieces index))
    then s
    else record s { pieces = set s.pieces index in_progress }

-- AddPeers of what was exchanged is done: a failed download loses the connection.
abbrev pub harvested_worker : Bytes → ℕ → Option Bytes → Worker
harvested_worker addr index none = delivering none index none
harvested_worker addr index (some piece) = delivering (some addr) index (some piece)

abbrev pub harvested : Option Bytes → Swarm → Swarm
harvested none s = release s
harvested (some piece) s = s

-- The worker whose result was received
abbrev pub delivered_worker : Option Bytes → Worker
delivered_worker none = seeking
delivered_worker (some addr) = connected addr

-- The collection loop: a lost piece is pending before it goes back into the queue.
abbrev pub unmark : ℕ → Swarm → Swarm
unmark index s = record s { pieces = set s.pieces index pending; hand = requeuing index }

abbrev pub requeue : ℕ → Swarm → Swarm
requeue index s = record s { work_chan = s.work_chan ++ index ∷ []; hand = free }

abbrev pub stored : ℕ → Swarm → Outcome → Swarm
stored index s (failed e) = record s { failure = some e; hand = failing index }
stored index s (written disk) = record s { disk = disk; hand = wrote index }

abbrev pub store : Config → ℕ → Bytes → Swarm → Swarm
store c index piece s =
    stored index s (write_piece c.io_fails c.files index c.piece_length piece s.disk)

abbrev pub mark : ℕ → Swarm → Swarm
mark index s = record s { pieces = set s.pieces index completed; hand = marked }

abbrev pub count_completion : Config → Swarm → Swarm
count_completion c s = record s {
  completed_count = s.completed_count + 1;
  hand = if s.completed_count + 1 == c.piece_count then finishing else free;
}

-- cancel, and the break out of the loop
abbrev pub stop : Swarm → Swarm
stop s = record s { cancelled = true; collecting = false; hand = free }

abbrev pub has_no_peer : List Bytes → Bool
has_no_peer [] = true
has_no_peer (a ∷ peers) = false

-- superviseExhaustion: the three tests of a poll, each on what it reads then
abbrev pub rest : Swarm → Swarm
rest s = record s { confirms = 0; watch = resting }

abbrev pub confirm : Swarm → Swarm
confirm s =
    if leb exhaustion_confirms (s.confirms + 1)
    then record s { confirms = s.confirms + 1; watch = resting; exhausted = true; cancelled = true }
    else record s { confirms = s.confirms + 1; watch = resting }

abbrev pub poll_at : Config → Watch → Swarm → Swarm
poll_at c resting s = if has_no_peer s.peer_chan then record s { watch = no_peer } else rest s
poll_at c no_peer s = if s.in_flight == 0 then record s { watch = nothing_in_flight } else rest s
poll_at c nothing_in_flight s = if ltb s.completed_count c.piece_count then confirm s else rest s

abbrev pub poll : Config → Swarm → Swarm
poll c s = poll_at c s.watch s

pub data StartResult : Type 0 where
  finished : StartResult
  storage_failed : Failure → StartResult
  peers_exhausted workers_died : StartResult

-- What Start returns when all workers are gone.
abbrev pub start_result : Config → Swarm → Option Failure → StartResult
start_result c s (some e) = storage_failed e
start_result c s none =
    if ltb s.completed_count c.piece_count
    then (if s.exhausted then peers_exhausted else workers_died)
    else finished

-- A step of a worker, of the collection loop, of the supervisor, or of the caller
pub data Step (c : Config) : Swarm → List Worker → Swarm → List Worker → Type 0 where
  takes :
      (s : Swarm) (before after : List Worker) (addr : Bytes) (peers : List Bytes)
      → s.peer_chan ≡ addr ∷ peers
      → Step c s (before ++ seeking ∷ after) (take_address peers s) (before ++ taken addr ∷ after)
  counts :
      (s : Swarm) (before after : List Worker) (addr : Bytes)
      → Step c s (before ++ taken addr ∷ after) (count_in_flight s) (before ++ dialing addr ∷ after)
  dials :
      (s : Swarm) (before after : List Worker) (addr : Bytes)
      → Step c s (before ++ dialing addr ∷ after) s (before ++ connected addr ∷ after)
  misses :
      (s : Swarm) (before after : List Worker) (addr : Bytes)
      → Step c s (before ++ dialing addr ∷ after) (release s) (before ++ seeking ∷ after)
  pulls :
      (s : Swarm) (before after : List Worker) (addr : Bytes) (index : ℕ) (work : List ℕ)
      → s.work_chan ≡ index ∷ work
      → Step c s
          (before ++ connected addr ∷ after)
          (record s { work_chan = work })
          (before ++ examining addr index ∷ after)
  examines :
      (s : Swarm) (before after : List Worker) (addr : Bytes) (index : ℕ)
      → Step c s
          (before ++ examining addr index ∷ after)
          (examined index s)
          (before ++ examined_worker c addr index s ∷ after)
  fetches :
      (s : Swarm) (before after : List Worker) (addr : Bytes) (index : ℕ) (result : Option Bytes)
      (pex : List Bytes)
      → Step c s
          (before ++ fetching addr index ∷ after)
          s
          (before ++ harvesting addr index result pex ∷ after)
  offers :
      (s : Swarm) (before after : List Worker) (addr : Bytes) (index : ℕ) (result : Option Bytes)
      (a : Bytes) (pex : List Bytes)
      → Step c s
          (before ++ harvesting addr index result (a ∷ pex) ∷ after)
          (add_peer a s)
          (before ++ harvesting addr index result pex ∷ after)
  harvests :
      (s : Swarm) (before after : List Worker) (addr : Bytes) (index : ℕ) (result : Option Bytes)
      → Step c s
          (before ++ harvesting addr index result [] ∷ after)
          (harvested result s)
          (before ++ harvested_worker addr index result ∷ after)
  receives :
      (s : Swarm) (before after : List Worker) (conn : Option Bytes) (index : ℕ)
      (result : Option Bytes)
      → s.collecting ≡ true
      → s.hand ≡ free
      → Step c s
          (before ++ delivering conn index result ∷ after)
          (record s { hand = holding index result })
          (before ++ delivered_worker conn ∷ after)
  drains :
      (s : Swarm) (before after : List Worker) (conn : Option Bytes) (index : ℕ)
      (result : Option Bytes)
      → s.collecting ≡ false
      → Step c s
          (before ++ delivering conn index result ∷ after)
          s
          (before ++ delivered_worker conn ∷ after)
  quits :
      (s : Swarm) (before after : List Worker)
      → s.cancelled ≡ true
      → Step c s (before ++ seeking ∷ after) s (before ++ gone ∷ after)
  leaves :
      (s : Swarm) (before after : List Worker) (addr : Bytes)
      → s.cancelled ≡ true
      → Step c s (before ++ connected addr ∷ after) (release s) (before ++ gone ∷ after)
  unmarks :
      (s : Swarm) (ws : List Worker) (index : ℕ)
      → s.hand ≡ holding index none
      → Step c s ws (unmark index s) ws
  requeues :
      (s : Swarm) (ws : List Worker) (index : ℕ)
      → s.hand ≡ requeuing index
      → length s.work_chan < c.piece_count
      → Step c s ws (requeue index s) ws
  -- A lost piece is not queued again when the context is done.
  forgets :
      (s : Swarm) (ws : List Worker) (index : ℕ)
      → s.hand ≡ requeuing index
      → s.cancelled ≡ true
      → Step c s ws (record s { hand = free }) ws
  stores :
      (s : Swarm) (ws : List Worker) (index : ℕ) (piece : Bytes)
      → s.hand ≡ holding index (some piece)
      → Step c s ws (store c index piece s) ws
  marks :
      (s : Swarm) (ws : List Worker) (index : ℕ)
      → s.hand ≡ wrote index
      → Step c s ws (mark index s) ws
  completes :
      (s : Swarm) (ws : List Worker) → s.hand ≡ marked → Step c s ws (count_completion c s) ws
  fails :
      (s : Swarm) (ws : List Worker) (index : ℕ) → s.hand ≡ failing index → Step c s ws (stop s) ws
  finishes : (s : Swarm) (ws : List Worker) → s.hand ≡ finishing → Step c s ws (stop s) ws
  polls : (s : Swarm) (ws : List Worker) → Step c s ws (poll c s) ws
  -- The caller's context is done.
  cancels : (s : Swarm) (ws : List Worker) → Step c s ws (record s { cancelled = true }) ws

pub data Reach (c : Config) (s : Swarm) (ws : List Worker) : Swarm → List Worker → Type 0 where
  here : Reach c s ws s ws
  next :
      (s' s'' : Swarm) (ws' ws'' : List Worker)
      → Reach c s ws s' ws'
      → Step c s' ws' s'' ws''
      → Reach c s ws s'' ws''
