-- ===== src/Client/Swarm/Working.antt =====
-- The steps of the workers keep the invariant.
use weightless.Prelude.{
  ℕ, ◌+◌, ◌-◌, ◌*◌, ◌≡◌, refl, sym, ap, ◌∙◌, true, false, Option, none, some, List, [], ◌∷◌, ◌++◌,
  Bytes, ltb, length-set, set, arith, Bool-cases, inl, inr,
}
use weightless.Client.Swarm.{
  PieceStatus, pending, in_progress, completed, Worker, connected, examining, fetching, harvesting,
  delivering, free, holding, Config, Swarm, status_at, is_pending, examined, examined_worker,
  release, harvested, harvested_worker, delivered_worker,
}
use weightless.Client.Swarm.Tokens.{
  same, count, holds, held, examines_it, in_exam, hand_holds, hand_queues, waits, in_work,
  uncounted, conn_held, flies, flying, finished_one, count_completed, held-append, in_exam-append,
  status_at-set, count_completed-set,
}
use weightless.Client.Swarm.Pieces.{
  pull-IsLoose, pull-IsTight, skip-IsLoose, queued_is_pending, drop-IsLoose,
}
use weightless.Client.Swarm.Invariant.{Inv, flown, keep-Inv, same-IsLoose, same-IsTight}

pub same_count :
    (ps : List PieceStatus) (j : ℕ) (old v : PieceStatus)
    → finished_one v ≡ 0
    → finished_one old ≡ 0
    → status_at ps j ≡ some old
    → count_completed (set ps j v) ≡ count_completed ps
same_count ps j old v a b h = omega (arith, count_completed-set ps j old v h, a, b)

-- A worker goes on with what it has.
pub moved :
    (c : Config) (s t : Swarm) (before : List Worker) (v w : Worker) (after : List Worker)
    → ((i : ℕ) → holds i v ≡ holds i w)
    → ((i : ℕ) → examines_it i v ≡ examines_it i w)
    → t.pieces ≡ s.pieces
    → t.work_chan ≡ s.work_chan
    → t.hand ≡ s.hand
    → t.completed_count ≡ s.completed_count
    → t.cancelled ≡ s.cancelled
    → t.collecting ≡ s.collecting
    → t.in_flight ≡ (s.in_flight + flies w) - flies v
    → Inv c s (before ++ v ∷ after)
    → Inv c t (before ++ w ∷ after)
moved c s t before v w after keeps exams ps work hand n can col fl k =
    keep-Inv c s t (before ++ v ∷ after) (before ++ w ∷ after) ps
      (λ i. omega (
        arith,
        ap (count i) work,
        ap (hand_queues i) hand,
        exams i,
        in_exam-append i before v after,
        in_exam-append i before w after,
      ))
      (λ i. omega (
        arith,
        ap (hand_holds i) hand,
        keeps i,
        held-append i before v after,
        held-append i before w after,
      ))
      (λ open_. sym can ∙ open_) (fl ∙ flown before v w after s.in_flight k.flights)
      (omega (arith, n, ap uncounted hand)) (λ closed. can ∙ k.ended (sym col ∙ closed)) k

pub pull-Inv :
    (c : Config) (s : Swarm) (before after : List Worker) (addr : Bytes) (index : ℕ) (work : List ℕ)
    → s.work_chan ≡ index ∷ work
    → Inv c s (before ++ connected addr ∷ after)
    → Inv c (record s { work_chan = work }) (before ++ examining addr index ∷ after)
pull-Inv c s before after addr index work e k =
    let v = connected addr in
    let w = examining addr index in
    keep-Inv c s (record s { work_chan = work }) (before ++ v ∷ after) (before ++ w ∷ after) refl
      (λ i.
        omega
          (arith, ap (count i) e, in_exam-append i before v after, in_exam-append i before w after))
      (λ i. omega (arith, held-append i before v after, held-append i before w after))
      (λ open_. open_) (omega (arith, flown before v w after s.in_flight k.flights)) refl k.ended k

-- The worker that marks a pending piece has it in progress from then on.
mark_index-Inv :
    (c : Config) (s : Swarm) (before after : List Worker) (addr : Bytes) (index : ℕ) (w : Worker)
    → ((i : ℕ) → holds i w ≡ same index i)
    → ((i : ℕ) → examines_it i w ≡ 0)
    → flies w ≡ 1
    → is_pending (status_at s.pieces index) ≡ true
    → Inv c s (before ++ examining addr index ∷ after)
    → Inv c (record s { pieces = set s.pieces index in_progress }) (before ++ w ∷ after)
mark_index-Inv c s before after addr index w takes_it no_exam one p k = record {
  size = length-set s.pieces index in_progress ∙ k.size;
  loose = λ i. rw (status_at-set s.pieces index i in_progress) (
      same-IsLoose (n i) (waits i s.work_chan (before ++ w ∷ after) s.hand) (same index i + h i)
        (in_work i (before ++ w ∷ after) s.hand) _ (fewer i) (more i)
        (pull-IsLoose index i (n i) (h i) (status_at s.pieces i) (
          same-IsLoose (waits i s.work_chan ws s.hand) (same index i + n i) (in_work i ws s.hand)
            (h i) (status_at s.pieces i) (was i) refl (k.loose i))));
  tight = λ open_ i. rw (status_at-set s.pieces index i in_progress) (
      same-IsTight (n i) (waits i s.work_chan (before ++ w ∷ after) s.hand) (same index i + h i)
        (in_work i (before ++ w ∷ after) s.hand) _ (fewer i) (more i)
        (pull-IsTight index i (n i) (h i) (status_at s.pieces i) (
          same-IsTight (waits i s.work_chan ws s.hand) (same index i + n i) (in_work i ws s.hand)
            (h i) (status_at s.pieces i) (was i) refl (k.tight open_ i))));
  flights = omega (arith, flown before v w after s.in_flight k.flights, one);
  done = k.done ∙ sym (pending_count (status_at s.pieces index) refl p);
  ended = k.ended;
}
  where
    v : Worker
    v = examining addr index

    ws : List Worker
    ws = before ++ examining addr index ∷ after

    n : ℕ → ℕ
    n i = count i s.work_chan + (in_exam i (before ++ after) + hand_queues i s.hand)

    h : ℕ → ℕ
    h i = in_work i (before ++ examining addr index ∷ after) s.hand

    was :
        (i : ℕ)
        → same index i + n i ≡ waits i s.work_chan (before ++ examining addr index ∷ after) s.hand
    was i = omega (arith, in_exam-append i before (examining addr index) after)

    fewer : (i : ℕ) → waits i s.work_chan (before ++ w ∷ after) s.hand ≡ n i
    fewer i = omega (arith, in_exam-append i before w after, no_exam i)

    more : (i : ℕ) → in_work i (before ++ w ∷ after) s.hand ≡ same index i + h i
    more i = omega (
      arith,
      held-append i before w after,
      held-append i before (examining addr index) after,
      takes_it i,
    )

    pending_count :
        (st : Option PieceStatus)
        → status_at s.pieces index ≡ st
        → is_pending st ≡ true
        → count_completed (set s.pieces index in_progress) ≡ count_completed s.pieces
    pending_count none e q = absurd (ground (arith, q))
    pending_count (some pending) e q = same_count s.pieces index pending in_progress refl refl e
    pending_count (some in_progress) e q = absurd (ground (arith, q))
    pending_count (some completed) e q = absurd (ground (arith, q))

pub examine-Inv :
    (c : Config) (s : Swarm) (before after : List Worker) (addr : Bytes) (index : ℕ)
    → Inv c s (before ++ examining addr index ∷ after)
    → Inv c (examined index s) (before ++ examined_worker c addr index s ∷ after)
examine-Inv c s before after addr index k =
    elim (Bool-cases (is_pending (status_at s.pieces index))) [
      | inl p ↦ elim (Bool-cases (ltb c.hash_bytes ((index + 1) * 20))) [
        | inl short ↦
            rw (p, short)
              (mark_index-Inv c s before after addr index (delivering (some addr) index none)
                (λ i. refl) (λ i. refl) refl p k)
        | inr long ↦
            rw (p, long)
              (mark_index-Inv c s before after addr index (fetching addr index) (λ i. refl)
                (λ i. refl) refl p k)
      ]
      | inr p ↦ rw p (record {
        size = k.size;
        loose = λ i.
            same-IsLoose (n i) (waits i s.work_chan (before ++ connected addr ∷ after) s.hand)
              (in_work i (before ++ examining addr index ∷ after) s.hand)
              (in_work i (before ++ connected addr ∷ after) s.hand) (status_at s.pieces i) (fewer i)
              (alike i)
              (skip-IsLoose index i (n i)
                (in_work i (before ++ examining addr index ∷ after) s.hand) (status_at s.pieces i)
                (same-IsLoose (waits i s.work_chan (before ++ examining addr index ∷ after) s.hand)
                  (same index i + n i) (in_work i (before ++ examining addr index ∷ after) s.hand)
                  (in_work i (before ++ examining addr index ∷ after) s.hand) (status_at s.pieces i)
                  (was i) refl (k.loose i)));
        tight = λ open_. absurd (never open_ p);
        flights = omega (
          arith,
          flown before (examining addr index) (connected addr) after s.in_flight k.flights,
        );
        done = k.done;
        ended = k.ended;
      })
    ]
  where
    n : ℕ → ℕ
    n i = count i s.work_chan + (in_exam i (before ++ after) + hand_queues i s.hand)

    was :
        (i : ℕ)
        → same index i + n i ≡ waits i s.work_chan (before ++ examining addr index ∷ after) s.hand
    was i = omega (arith, in_exam-append i before (examining addr index) after)

    fewer : (i : ℕ) → waits i s.work_chan (before ++ connected addr ∷ after) s.hand ≡ n i
    fewer i = omega (arith, in_exam-append i before (connected addr) after)

    alike :
        (i : ℕ)
        → in_work i (before ++ connected addr ∷ after) s.hand
          ≡ in_work i (before ++ examining addr index ∷ after) s.hand
    alike i = omega (
      arith,
      held-append i before (connected addr) after,
      held-append i before (examining addr index) after,
    )

    never : s.cancelled ≡ false → is_pending (status_at s.pieces index) ≡ false → ⊥
    never open_ p =
        let one : same index index ≡ 1 = ground arith in
        let h = in_work index (before ++ examining addr index ∷ after) s.hand in
        let old = waits index s.work_chan (before ++ examining addr index ∷ after) s.hand in
        let counted : 1 + n index ≡ old = omega (arith, was index, one) in
        let yes_pending =
          queued_is_pending (n index) h (status_at s.pieces index)
            (same-IsLoose old (1 + n index) h h (status_at s.pieces index) counted refl
              (k.loose index))
            (same-IsTight old (1 + n index) h h (status_at s.pieces index) counted refl
              (k.tight open_ index)) in
        ground (arith, yes_pending, p)

pub harvest-Inv :
    (c : Config) (s : Swarm) (before after : List Worker) (addr : Bytes) (index : ℕ)
    (result : Option Bytes)
    → Inv c s (before ++ harvesting addr index result [] ∷ after)
    → Inv c (harvested result s) (before ++ harvested_worker addr index result ∷ after)
harvest-Inv c s before after addr index none k =
    moved c s (release s) before (harvesting addr index none []) (delivering none index none) after
      (λ i. refl) (λ i. refl) refl refl refl refl refl refl (omega arith) k
harvest-Inv c s before after addr index (some piece) k =
    moved c s s before (harvesting addr index (some piece) [])
      (delivering (some addr) index (some piece)) after (λ i. refl) (λ i. refl) refl refl refl refl
      refl refl (omega arith) k

delivered_flies : (conn : Option Bytes) → flies (delivered_worker conn) ≡ conn_held conn
delivered_flies none = refl
delivered_flies (some addr) = refl

delivered_holds :
    (i : ℕ) (conn : Option Bytes)
    → (holds i (delivered_worker conn) ≡ 0) × (examines_it i (delivered_worker conn) ≡ 0)
delivered_holds i none = (refl, refl)
delivered_holds i (some addr) = (refl, refl)

module _ (c : Config) (s : Swarm) (before after : List Worker) (conn : Option Bytes) (index : ℕ)
    (result : Option Bytes) (k : Inv c s (before ++ delivering conn index result ∷ after)) where
  gone_held :
      (i : ℕ)
      → held i (before ++ delivering conn index result ∷ after)
        ≡ same index i + held i (before ++ delivered_worker conn ∷ after)
  gone_held i = omega (
    arith,
    held-append i before (delivering conn index result) after,
    held-append i before (delivered_worker conn) after,
    (delivered_holds i conn).0,
  )

  same_exam :
      (i : ℕ)
      → in_exam i (before ++ delivered_worker conn ∷ after)
        ≡ in_exam i (before ++ delivering conn index result ∷ after)
  same_exam i = omega (
    arith,
    in_exam-append i before (delivering conn index result) after,
    in_exam-append i before (delivered_worker conn) after,
    (delivered_holds i conn).1,
  )

  same_flights : s.in_flight ≡ flying (before ++ delivered_worker conn ∷ after)
  same_flights = omega (
    arith,
    flown before (delivering conn index result) (delivered_worker conn) after s.in_flight k.flights,
    delivered_flies conn,
  )

  pub receive-Inv :
      s.hand ≡ free
      → Inv c (record s { hand = holding index result }) (before ++ delivered_worker conn ∷ after)
  receive-Inv e =
      keep-Inv c s (record s { hand = holding index result })
        (before ++ delivering conn index result ∷ after) (before ++ delivered_worker conn ∷ after)
        refl (λ i. omega (arith, same_exam i, ap (hand_queues i) e))
        (λ i. omega (arith, gone_held i, ap (hand_holds i) e)) (λ open_. open_) same_flights
        (omega (arith, ap uncounted e)) k.ended k

  pub drain-Inv : s.collecting ≡ false → Inv c s (before ++ delivered_worker conn ∷ after)
  drain-Inv closed =
      let over = k.ended closed in
      record {
        size = k.size;
        loose = λ i.
            let n = waits i s.work_chan (before ++ delivering conn index result ∷ after) s.hand in
            let h = in_work i (before ++ delivered_worker conn ∷ after) s.hand in
            same-IsLoose n (waits i s.work_chan (before ++ delivered_worker conn ∷ after) s.hand) h
              h (status_at s.pieces i) (omega (arith, same_exam i)) refl
              (drop-IsLoose index i n h (status_at s.pieces i) (
                same-IsLoose n n (in_work i (before ++ delivering conn index result ∷ after) s.hand)
                  (same index i + h) (status_at s.pieces i) refl (omega (arith, gone_held i))
                  (k.loose i)));
        tight = λ open_. absurd (ground (arith, over, open_));
        flights = same_flights;
        done = k.done;
        ended = k.ended;
      }
