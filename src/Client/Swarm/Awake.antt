-- ===== src/Client/Swarm/Awake.antt =====
-- A worker ends only when the context is done.
use weightless.Prelude.{
  ℕ, zero, suc, ◌+◌, ◌*◌, ◌<◌, ◌≡◌, refl, ◌∙◌, sym, false, Option, none, some, List, [], ◌∷◌, ◌++◌,
  Bytes, ltb, leb, ◌==◌, if◌then◌else◌, arith, Bool-cases, inl, inr, replicate,
}
use weightless.Client.Storage.{written, failed, Outcome, write_piece}
use weightless.Client.Swarm.{
  Worker, seeking, gone, taken, dialing, connected, examining, fetching, harvesting, delivering,
  Config, Swarm, Watch, resting, no_peer, nothing_in_flight, start_workers, status_at, is_pending,
  examined_worker, harvested_worker, delivered_worker, stored, has_no_peer, confirm, poll_at, Step,
  takes, counts, dials, misses, pulls, examines, fetches, offers, harvests, receives, drains, quits,
  leaves, unmarks, requeues, forgets, stores, marks, completes, fails, finishes, polls, cancels,
  Reach, here, next,
}

abbrev pub wakes : Worker → ℕ
wakes gone = 0
wakes seeking = 1
wakes (taken addr) = 1
wakes (dialing addr) = 1
wakes (connected addr) = 1
wakes (examining addr j) = 1
wakes (fetching addr j) = 1
wakes (harvesting addr j result pex) = 1
wakes (delivering conn j result) = 1

abbrev pub awake : List Worker → ℕ
awake [] = 0
awake (w ∷ ws) = wakes w + awake ws

awake-append :
    (before : List Worker) (w : Worker) (after : List Worker)
    → awake (before ++ w ∷ after) ≡ wakes w + awake (before ++ after)
awake-append [] w after = refl
awake-append (v ∷ before) w after = omega (arith, awake-append before w after)

abbrev pub IsAwake : Swarm → List Worker → Type 0
IsAwake s ws = s.cancelled ≡ false → 0 < awake ws

examined_wakes :
    (c : Config) (addr : Bytes) (index : ℕ) (s : Swarm) → wakes (examined_worker c addr index s) ≡ 1
examined_wakes c addr index s = elim (Bool-cases (is_pending (status_at s.pieces index))) [
  | inl p ↦ elim (Bool-cases (ltb c.hash_bytes ((index + 1) * 20))) [
    | inl short ↦ rw (p, short) refl
    | inr long ↦ rw (p, long) refl
  ]
  | inr p ↦ rw p refl
]

harvested_wakes :
    (addr : Bytes) (index : ℕ) (result : Option Bytes)
    → wakes (harvested_worker addr index result) ≡ 1
harvested_wakes addr index none = refl
harvested_wakes addr index (some piece) = refl

delivered_wakes : (conn : Option Bytes) → wakes (delivered_worker conn) ≡ 1
delivered_wakes none = refl
delivered_wakes (some addr) = refl

stored-cancelled : (j : ℕ) (s : Swarm) (out : Outcome) → (stored j s out).cancelled ≡ s.cancelled
stored-cancelled j s (failed f) = refl
stored-cancelled j s (written disk) = refl

-- A poll that does not cancel the context leaves one that was not done.
confirm_open : (s : Swarm) → (confirm s).cancelled ≡ false → s.cancelled ≡ false
confirm_open s = elim (Bool-cases (leb 2 (s.confirms + 1))) [
  | inl twice ↦ rw twice (λ h. absurd (ground (arith, h)))
  | inr once ↦ rw once (λ h. h)
]

poll_at_open :
    (c : Config) (w : Watch) (s : Swarm) → (poll_at c w s).cancelled ≡ false → s.cancelled ≡ false
poll_at_open c resting s = elim (Bool-cases (has_no_peer s.peer_chan)) [
  | inl yes_it ↦ rw yes_it (λ h. h)
  | inr not_it ↦ rw not_it (λ h. h)
]
poll_at_open c no_peer s = elim (Bool-cases (s.in_flight == 0)) [
  | inl yes_it ↦ rw yes_it (λ h. h)
  | inr not_it ↦ rw not_it (λ h. h)
]
poll_at_open c nothing_in_flight s = elim (Bool-cases (ltb s.completed_count c.piece_count)) [
  | inl yes_it ↦ rw yes_it (confirm_open s)
  | inr not_it ↦ rw not_it (λ h. h)
]

pub Step-IsAwake :
    {c : Config} {s t : Swarm} {ws ws' : List Worker}
    → Step c s ws t ws'
    → IsAwake s ws
    → IsAwake t ws'
Step-IsAwake (takes s before after addr peers e) k open_ =
    omega (arith, awake-append before (taken addr) after)
Step-IsAwake (counts s before after addr) k open_ =
    omega (arith, awake-append before (dialing addr) after)
Step-IsAwake (dials s before after addr) k open_ =
    omega (arith, awake-append before (connected addr) after)
Step-IsAwake (misses s before after addr) k open_ = omega (arith, awake-append before seeking after)
Step-IsAwake (pulls s before after addr index work e) k open_ =
    omega (arith, awake-append before (examining addr index) after)
Step-IsAwake {c} (examines s before after addr index) k open_ = omega (
  arith,
  awake-append before (examined_worker c addr index s) after,
  examined_wakes c addr index s,
)
Step-IsAwake (fetches s before after addr index result pex) k open_ =
    omega (arith, awake-append before (harvesting addr index result pex) after)
Step-IsAwake (offers s before after addr index result a pex) k open_ =
    omega (arith, awake-append before (harvesting addr index result pex) after)
Step-IsAwake (harvests s before after addr index result) k open_ = omega (
  arith,
  awake-append before (harvested_worker addr index result) after,
  harvested_wakes addr index result,
)
Step-IsAwake (receives s before after conn index result h e) k open_ =
    omega (arith, awake-append before (delivered_worker conn) after, delivered_wakes conn)
Step-IsAwake (drains s before after conn index result closed) k open_ =
    omega (arith, awake-append before (delivered_worker conn) after, delivered_wakes conn)
Step-IsAwake (quits s before after over) k open_ = absurd (ground (arith, over, open_))
Step-IsAwake (leaves s before after addr over) k open_ = absurd (cc)
Step-IsAwake (unmarks s ws index e) k open_ = k open_
Step-IsAwake (requeues s ws index e room) k open_ = k open_
Step-IsAwake (forgets s ws index e over) k open_ = k open_
Step-IsAwake {c} (stores s ws index piece e) k open_ = k (
    sym
      (stored-cancelled index s (write_piece c.io_fails c.files index c.piece_length piece s.disk))
    ∙ open_)
Step-IsAwake (marks s ws index e) k open_ = k open_
Step-IsAwake (completes s ws e) k open_ = k open_
Step-IsAwake (fails s ws index e) k open_ = absurd (ground (arith, open_))
Step-IsAwake (finishes s ws e) k open_ = absurd (ground (arith, open_))
Step-IsAwake {c} (polls s ws) k open_ = k (poll_at_open c s.watch s open_)
Step-IsAwake (cancels s ws) k open_ = absurd (ground (arith, open_))

awake-replicate : (n : ℕ) → awake (replicate n seeking) ≡ n
awake-replicate zero = refl
awake-replicate (suc n) = omega (arith, awake-replicate n)

pub awake-start_workers : (n : ℕ) → 0 < awake (start_workers n)
awake-start_workers n = ground (arith, awake-replicate (if ltb n 1 then 1 else n))

pub Reach-IsAwake :
    {c : Config} {s : Swarm} {ws : List Worker} {t : Swarm} {ws' : List Worker}
    → IsAwake s ws
    → Reach c s ws t ws'
    → IsAwake t ws'
Reach-IsAwake k here = k
Reach-IsAwake k (next s' s'' ws' ws'' r st) = Step-IsAwake st (Reach-IsAwake k r)
