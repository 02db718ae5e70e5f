-- ===== src/Client/Swarm/Collecting.antt =====
-- The steps of the collection loop, of the supervisor and of the caller keep the invariant.
use weightless.Prelude.{
  ℕ, ◌+◌, ◌≡◌, refl, ap, ◌∙◌, Bool, true, false, Option, none, some, List, Bytes, ltb, leb, ◌==◌,
  if◌then◌else◌, length-set, arith, Bool-cases, inl, inr, ◌≤◌,
}
use weightless.Client.Storage.{written, failed, Outcome, write_piece}
use weightless.Client.Swarm.{
  PieceStatus, pending, in_progress, completed, Worker, free, finishing, marked, requeuing, failing,
  wrote, holding, Watch, resting, no_peer, nothing_in_flight, Config, Swarm, status_at, unmark,
  requeue, stored, store, mark, count_completion, stop, has_no_peer, poll_at, poll, confirm, rest,
}
use weightless.Client.Swarm.Tokens.{
  same, held, hand_holds, hand_queues, waits, in_work, uncounted, busy, count-append, status_at-set,
  count_completed-set,
}
use weightless.Client.Swarm.Pieces.{
  IsLoose, IsTight, skip-IsLoose, requeue-IsLoose, requeue-IsTight, finish-IsLoose, finish-IsTight,
  drop-IsLoose,
}
use weightless.Client.Swarm.Invariant.{Inv, keep-Inv, same-IsLoose, same-IsTight}
use weightless.Client.Swarm.Working.{same_count}

in_progress_one : (st : Option PieceStatus) → 1 ≤ busy st → st ≡ some in_progress
in_progress_one none h = absurd (omega (arith, h))
in_progress_one (some pending) h = absurd (omega (arith, h))
in_progress_one (some in_progress) h = refl
in_progress_one (some completed) h = absurd (omega (arith, h))

module _ (c : Config) (s : Swarm) (ws : List Worker) (k : Inv c s ws) where
  -- A piece that the collection loop has is in progress.
  held_status : (j : ℕ) → hand_holds j s.hand ≡ same j j → status_at s.pieces j ≡ some in_progress
  held_status j e =
      let one : same j j ≡ 1 = ground arith in
      in_progress_one (status_at s.pieces j) (omega (arith, (k.loose j).working, one, e))

  given-IsLoose :
      (j : ℕ)
      → ((i : ℕ) → hand_holds i s.hand ≡ same j i)
      → (i : ℕ)
      → IsLoose (waits i s.work_chan ws s.hand) (same j i + held i ws) (status_at s.pieces i)
  given-IsLoose j e i =
      same-IsLoose (waits i s.work_chan ws s.hand) (waits i s.work_chan ws s.hand)
        (in_work i ws s.hand) (same j i + held i ws) (status_at s.pieces i) refl
        (omega (arith, e i)) (k.loose i)

  given-IsTight :
      (j : ℕ)
      → ((i : ℕ) → hand_holds i s.hand ≡ same j i)
      → s.cancelled ≡ false
      → (i : ℕ)
      → IsTight (waits i s.work_chan ws s.hand) (same j i + held i ws) (status_at s.pieces i)
  given-IsTight j e open_ i =
      same-IsTight (waits i s.work_chan ws s.hand) (waits i s.work_chan ws s.hand)
        (in_work i ws s.hand) (same j i + held i ws) (status_at s.pieces i) refl
        (omega (arith, e i)) (k.tight open_ i)

  pub unmark-Inv : (j : ℕ) → s.hand ≡ holding j none → Inv c (unmark j s) ws
  unmark-Inv j e =
      let n : ℕ → ℕ = λ i. waits i s.work_chan ws s.hand in
      let has : (i : ℕ) → hand_holds i s.hand ≡ same j i = λ i. ap (hand_holds i) e in
      record {
        size = length-set s.pieces j pending ∙ k.size;
        loose = λ i. rw (status_at-set s.pieces j i pending) (
            same-IsLoose (same j i + n i) (waits i s.work_chan ws (requeuing j)) (held i ws)
              (in_work i ws (requeuing j)) _ (omega (arith, ap (hand_queues i) e)) (omega arith)
              (requeue-IsLoose j i (n i) (held i ws) (status_at s.pieces i)
                (given-IsLoose j has i)));
        tight = λ open_ i. rw (status_at-set s.pieces j i pending) (
            same-IsTight (same j i + n i) (waits i s.work_chan ws (requeuing j)) (held i ws)
              (in_work i ws (requeuing j)) _ (omega (arith, ap (hand_queues i) e)) (omega arith)
              (requeue-IsTight j i (n i) (held i ws) (status_at s.pieces i)
                (given-IsTight j has open_ i)));
        flights = k.flights;
        done = omega (
          arith,
          k.done,
          ap uncounted e,
          same_count s.pieces j in_progress pending refl refl (held_status j (has j)),
        );
        ended = k.ended;
      }

  pub mark-Inv : (j : ℕ) → s.hand ≡ wrote j → Inv c (mark j s) ws
  mark-Inv j e =
      let n : ℕ → ℕ = λ i. waits i s.work_chan ws s.hand in
      let has : (i : ℕ) → hand_holds i s.hand ≡ same j i = λ i. ap (hand_holds i) e in
      record {
        size = length-set s.pieces j completed ∙ k.size;
        loose = λ i. rw (status_at-set s.pieces j i completed) (
            same-IsLoose (n i) (waits i s.work_chan ws marked) (held i ws) (in_work i ws marked) _
              (omega (arith, ap (hand_queues i) e)) (omega arith)
              (finish-IsLoose j i (n i) (held i ws) (status_at s.pieces i)
                (given-IsLoose j has i)));
        tight = λ open_ i. rw (status_at-set s.pieces j i completed) (
            same-IsTight (n i) (waits i s.work_chan ws marked) (held i ws) (in_work i ws marked) _
              (omega (arith, ap (hand_queues i) e)) (omega arith)
              (finish-IsTight j i (n i) (held i ws) (status_at s.pieces i)
                (given-IsTight j has open_ i)));
        flights = k.flights;
        done = omega (
          arith,
          k.done,
          ap uncounted e,
          count_completed-set s.pieces j in_progress completed (held_status j (has j)),
        );
        ended = k.ended;
      }

  pub requeue-Inv : (j : ℕ) → s.hand ≡ requeuing j → Inv c (requeue j s) ws
  requeue-Inv j e =
      keep-Inv c s (requeue j s) ws ws refl
        (λ i. omega (arith, ap (hand_queues i) e, count-append i s.work_chan j))
        (λ i. omega (arith, ap (hand_holds i) e)) (λ open_. open_) k.flights
        (omega (arith, ap uncounted e)) k.ended k

  pub forget-Inv :
      (j : ℕ) → s.hand ≡ requeuing j → s.cancelled ≡ true → Inv c (record s { hand = free }) ws
  forget-Inv j e over = record {
    size = k.size;
    loose = λ i.
        skip-IsLoose j i (waits i s.work_chan ws free) (in_work i ws free) (status_at s.pieces i) (
          same-IsLoose (waits i s.work_chan ws s.hand) (same j i + waits i s.work_chan ws free)
            (in_work i ws s.hand) (in_work i ws free) (status_at s.pieces i)
            (omega (arith, ap (hand_queues i) e)) (omega (arith, ap (hand_holds i) e)) (k.loose i));
    tight = λ open_. absurd (ground (arith, over, open_));
    flights = k.flights;
    done = omega (arith, k.done, ap uncounted e);
    ended = k.ended;
  }

  stored-Inv :
      (j : ℕ) (piece : Bytes)
      → s.hand ≡ holding j (some piece)
      → (out : Outcome) → Inv c (stored j s out) ws
  stored-Inv j piece e (failed f) =
      keep-Inv c s (stored j s (failed f)) ws ws refl (λ i. omega (arith, ap (hand_queues i) e))
        (λ i. omega (arith, ap (hand_holds i) e)) (λ open_. open_) k.flights
        (omega (arith, ap uncounted e)) k.ended k
  stored-Inv j piece e (written disk) =
      keep-Inv c s (stored j s (written disk)) ws ws refl (λ i. omega (arith, ap (hand_queues i) e))
        (λ i. omega (arith, ap (hand_holds i) e)) (λ open_. open_) k.flights
        (omega (arith, ap uncounted e)) k.ended k

  pub store-Inv :
      (j : ℕ) (piece : Bytes) → s.hand ≡ holding j (some piece) → Inv c (store c j piece s) ws
  store-Inv j piece e =
      stored-Inv j piece e (write_piece c.io_fails c.files j c.piece_length piece s.disk)

  completed-Inv :
      (last : Bool)
      → s.hand ≡ marked
      → Inv c
          (record s {
            completed_count = s.completed_count + 1;
            hand = if last then finishing else free;
          })
          ws
  completed-Inv true e =
      keep-Inv c s (record s { completed_count = s.completed_count + 1; hand = finishing }) ws ws
        refl (λ i. omega (arith, ap (hand_queues i) e)) (λ i. omega (arith, ap (hand_holds i) e))
        (λ open_. open_) k.flights (omega (arith, ap uncounted e)) k.ended k
  completed-Inv false e =
      keep-Inv c s (record s { completed_count = s.completed_count + 1; hand = free }) ws ws refl
        (λ i. omega (arith, ap (hand_queues i) e)) (λ i. omega (arith, ap (hand_holds i) e))
        (λ open_. open_) k.flights (omega (arith, ap uncounted e)) k.ended k

  pub complete-Inv : s.hand ≡ marked → Inv c (count_completion c s) ws
  complete-Inv e = completed-Inv (s.completed_count + 1 == c.piece_count) e

  pub fail-Inv : (j : ℕ) → s.hand ≡ failing j → Inv c (stop s) ws
  fail-Inv j e = record {
    size = k.size;
    loose = λ i.
        drop-IsLoose j i (waits i s.work_chan ws free) (in_work i ws free) (status_at s.pieces i) (
          same-IsLoose (waits i s.work_chan ws s.hand) (waits i s.work_chan ws free)
            (in_work i ws s.hand) (same j i + in_work i ws free) (status_at s.pieces i)
            (omega (arith, ap (hand_queues i) e)) (omega (arith, ap (hand_holds i) e)) (k.loose i));
    tight = λ open_. absurd (ground (arith, open_));
    flights = k.flights;
    done = omega (arith, k.done, ap uncounted e);
    ended = λ closed. refl;
  }

  pub finish-Inv : s.hand ≡ finishing → Inv c (stop s) ws
  finish-Inv e =
      keep-Inv c s (stop s) ws ws refl (λ i. omega (arith, ap (hand_queues i) e))
        (λ i. omega (arith, ap (hand_holds i) e)) (λ open_. absurd (ground (arith, open_)))
        k.flights (omega (arith, ap uncounted e)) (λ closed. refl) k

  pub cancel-Inv : Inv c (record s { cancelled = true }) ws
  cancel-Inv =
      keep-Inv c s (record s { cancelled = true }) ws ws refl (λ i. refl) (λ i. refl)
        (λ open_. absurd (ground (arith, open_))) k.flights refl (λ closed. refl) k

  rest-Inv : Inv c (rest s) ws
  rest-Inv =
      keep-Inv c s (rest s) ws ws refl (λ i. refl) (λ i. refl) (λ open_. open_) k.flights refl
        k.ended k

  watch-Inv : (w : Watch) → Inv c (record s { watch = w }) ws
  watch-Inv w =
      keep-Inv c s (record s { watch = w }) ws ws refl (λ i. refl) (λ i. refl) (λ open_. open_)
        k.flights refl k.ended k

  confirm-Inv : Inv c (confirm s) ws
  confirm-Inv = elim (Bool-cases (leb 2 (s.confirms + 1))) [
    | inl twice ↦ rw twice (
        keep-Inv c s
          (record s {
            confirms = s.confirms + 1;
            watch = resting;
            exhausted = true;
            cancelled = true;
          })
          ws ws refl (λ i. refl) (λ i. refl) (λ open_. absurd (ground (arith, open_))) k.flights
          refl (λ closed. refl) k)
    | inr once ↦ rw once (
        keep-Inv c s (record s { confirms = s.confirms + 1; watch = resting }) ws ws refl
          (λ i. refl) (λ i. refl) (λ open_. open_) k.flights refl k.ended k)
  ]

  poll_at-Inv : (w : Watch) → Inv c (poll_at c w s) ws
  poll_at-Inv resting = elim (Bool-cases (has_no_peer s.peer_chan)) [
    | inl yes_it ↦ rw yes_it (watch-Inv no_peer)
    | inr not_it ↦ rw not_it rest-Inv
  ]
  poll_at-Inv no_peer = elim (Bool-cases (s.in_flight == 0)) [
    | inl yes_it ↦ rw yes_it (watch-Inv nothing_in_flight)
    | inr not_it ↦ rw not_it rest-Inv
  ]
  poll_at-Inv nothing_in_flight = elim (Bool-cases (ltb s.completed_count c.piece_count)) [
    | inl yes_it ↦ rw yes_it confirm-Inv
    | inr not_it ↦ rw not_it rest-Inv
  ]

  pub poll-Inv : Inv c (poll c s) ws
  poll-Inv = poll_at-Inv s.watch
