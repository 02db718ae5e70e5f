-- ===== src/Client/Swarm/Invariant.antt =====
-- What holds in every state that a download reaches.
use weightless.Prelude.{
  ℕ, ◌+◌, ◌-◌, ◌≡◌, sym, ap, ◌∙◌, subst, true, false, Option, List, ◌∷◌, ◌++◌, Bytes, ltb, length,
  arith, Bool-cases, inl, inr,
}
use weightless.Client.Swarm.{
  PieceStatus, Worker, Hand, Config, Swarm, add_peer, status_at, is_known,
}
use weightless.Client.Swarm.Tokens.{
  waits, in_work, uncounted, flies, flying, count_completed, flying-append,
}
use weightless.Client.Swarm.Pieces.{IsLoose, IsTight}

abbrev pub AllLoose : List ℕ → List Worker → Hand → List PieceStatus → Type 0
AllLoose work ws hand pieces =
    (i : ℕ) → IsLoose (waits i work ws hand) (in_work i ws hand) (status_at pieces i)

abbrev pub AllTight : List ℕ → List Worker → Hand → List PieceStatus → Type 0
AllTight work ws hand pieces =
    (i : ℕ) → IsTight (waits i work ws hand) (in_work i ws hand) (status_at pieces i)

pub record Inv (c : Config) (s : Swarm) (ws : List Worker) : Type 0 where
  pub size : length s.pieces ≡ c.piece_count
  pub loose : AllLoose s.work_chan ws s.hand s.pieces
  pub tight : s.cancelled ≡ false → AllTight s.work_chan ws s.hand s.pieces
  pub flights : s.in_flight ≡ flying ws
  pub done : s.completed_count + uncounted s.hand ≡ count_completed s.pieces
  pub ended : s.collecting ≡ false → s.cancelled ≡ true

pub flown :
    (before : List Worker) (v w : Worker) (after : List Worker) (n : ℕ)
    → n ≡ flying (before ++ v ∷ after)
    → (n + flies w) - flies v ≡ flying (before ++ w ∷ after)
flown before v w after n e =
    omega (arith, flying-append before v after, flying-append before w after, e)

pub same-IsLoose :
    (n n' h h' : ℕ) (st : Option PieceStatus) → n' ≡ n → h' ≡ h → IsLoose n h st → IsLoose n' h' st
same-IsLoose n n' h h' st e f k = record {
  once = omega (arith, e, f, k.once);
  working = omega (arith, f, k.working);
}

pub same-IsTight :
    (n n' h h' : ℕ) (st : Option PieceStatus) → n' ≡ n → h' ≡ h → IsTight n h st → IsTight n' h' st
same-IsTight n n' h h' st e f k = record {
  somewhere = omega (arith, e, f, k.somewhere);
  at_work = omega (arith, f, k.at_work);
}

-- A step that leaves every piece where it counts, and its status.
pub keep-Inv :
    (c : Config) (s t : Swarm) (ws ws' : List Worker)
    → t.pieces ≡ s.pieces
    → ((i : ℕ) → waits i t.work_chan ws' t.hand ≡ waits i s.work_chan ws s.hand)
    → ((i : ℕ) → in_work i ws' t.hand ≡ in_work i ws s.hand)
    → (t.cancelled ≡ false → s.cancelled ≡ false)
    → t.in_flight ≡ flying ws'
    → t.completed_count + uncounted t.hand ≡ s.completed_count + uncounted s.hand
    → (t.collecting ≡ false → t.cancelled ≡ true)
    → Inv c s ws
    → Inv c t ws'
keep-Inv c s t ws ws' ps n h open_ fl done ended k = record {
  size = ap length ps ∙ k.size;
  loose = λ i.
      subst (λ p. IsLoose (waits i t.work_chan ws' t.hand) (in_work i ws' t.hand) (status_at p i))
        (sym ps)
        (same-IsLoose (waits i s.work_chan ws s.hand) (waits i t.work_chan ws' t.hand)
          (in_work i ws s.hand) (in_work i ws' t.hand) (status_at s.pieces i) (n i) (h i)
          (k.loose i));
  tight = λ o i.
      subst (λ p. IsTight (waits i t.work_chan ws' t.hand) (in_work i ws' t.hand) (status_at p i))
        (sym ps)
        (same-IsTight (waits i s.work_chan ws s.hand) (waits i t.work_chan ws' t.hand)
          (in_work i ws s.hand) (in_work i ws' t.hand) (status_at s.pieces i) (n i) (h i)
          (k.tight (open_ o) i));
  flights = fl;
  done = done ∙ k.done ∙ ap count_completed (sym ps);
  ended = ended;
}

-- A known or surplus address changes nothing, and another one only the pool.
pub add_peer-Inv :
    (c : Config) (a : Bytes) (s : Swarm) (ws : List Worker) → Inv c s ws → Inv c (add_peer a s) ws
add_peer-Inv c a s ws k = elim (Bool-cases (is_known a s.known_addrs)) [
  | inl known ↦ rw known k
  | inr new ↦ elim (Bool-cases (ltb (length s.peer_chan) 256)) [
    | inl room ↦
        rw (new, room)
          (record {
            size = k.size;
            loose = k.loose;
            tight = k.tight;
            flights = k.flights;
            done = k.done;
            ended = k.ended;
          })
    | inr full ↦ rw (new, full) k
  ]
]
