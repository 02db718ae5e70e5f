-- ===== src/Client/Swarm/Room.antt =====
-- The queue of pieces never fills up while the collection loop is about to queue one of them.
use weightless.Prelude.{
  ℕ, zero, suc, ◌+◌, ◌<◌, ◌≤◌, ◌≡◌, refl, ap, Option, none, some, List, [], ◌∷◌, ltb, ltb→lt,
  not-ltb→le, length, arith, Bool-cases, inl, inr,
}
use weightless.Client.Swarm.{
  PieceStatus, pending, in_progress, completed, Worker, requeuing, Config, Swarm, status_at,
}
use weightless.Client.Swarm.Tokens.{same, count, hand_queues, unfinished}
use weightless.Client.Swarm.Invariant.{Inv}

abbrev sum_below : ℕ → (ℕ → ℕ) → ℕ
sum_below zero f = 0
sum_below (suc n) f = f n + sum_below n f

sum_below-zero : (n : ℕ) → sum_below n (λ i. 0) ≡ 0
sum_below-zero zero = refl
sum_below-zero (suc n) = omega (arith, sum_below-zero n)

sum_below-add : (n : ℕ) (f g : ℕ → ℕ) → sum_below n (λ i. f i + g i) ≡ sum_below n f + sum_below n g
sum_below-add zero f g = refl
sum_below-add (suc n) f g = omega (arith, sum_below-add n f g)

sum_below-le : (n : ℕ) (f : ℕ → ℕ) → ((i : ℕ) → f i ≤ 1) → sum_below n f ≤ n
sum_below-le zero f h = omega arith
sum_below-le (suc n) f h = omega (arith, sum_below-le n f h, h n)

sum_below-same : (n j : ℕ) → j < n → 1 ≤ sum_below n (same j)
sum_below-same zero j h = absurd (omega (arith, h))
sum_below-same (suc n) j h = elim (Bool-cases (ltb j n)) [
  | inl less ↦ omega (arith, sum_below-same n j (ltb→lt j n less))
  | inr last ↦
      let le = not-ltb→le j n last in
      let it : j ≡ n = omega (arith, h, le) in
      let one : same j n ≡ 1 = ground (arith, it) in omega (arith, one)
]

-- Indices below `n` are no more than their numbers of times together.
length-sum_below :
    (n : ℕ) (work : List ℕ)
    → ((i : ℕ) → n ≤ i → count i work ≡ 0)
    → length work ≤ sum_below n (λ i. count i work)
length-sum_below n [] h = omega arith
length-sum_below n (j ∷ work) h =
    let here_one : same j j ≡ 1 = ground arith in
    let small : j < n = elim (Bool-cases (ltb j n)) [
      | inl less ↦ ltb→lt j n less
      | inr more ↦ absurd (omega (arith, h j (not-ltb→le j n more), here_one))
    ] in
    let rest = length-sum_below n work (λ i le. omega (arith, h i le)) in
    omega (arith, rest, sum_below-same n j small, sum_below-add n (same j) (λ i. count i work))

beyond : (ps : List PieceStatus) (i : ℕ) → length ps ≤ i → status_at ps i ≡ none
beyond [] i h = refl
beyond (p ∷ ps) zero h = absurd (omega (arith, h))
beyond (p ∷ ps) (suc i) h = beyond ps i (omega (arith, h))

unfinished-le : (st : Option PieceStatus) → unfinished st ≤ 1
unfinished-le none = omega arith
unfinished-le (some pending) = omega arith
unfinished-le (some in_progress) = omega arith
unfinished-le (some completed) = omega arith

-- A collection loop that is about to queue a lost piece again finds room.
pub has_room :
    (c : Config) (s : Swarm) (ws : List Worker) (j : ℕ)
    → Inv c s ws
    → s.hand ≡ requeuing j
    → length s.work_chan < c.piece_count
has_room c s ws j k e =
    let n = c.piece_count in
    let all = length-sum_below n (j ∷ s.work_chan) (λ i le. nothing_beyond i le) in
    omega (arith, all, sum_below-le n (λ i. count i (j ∷ s.work_chan)) each)
  where
    place : (i : ℕ) → count i (j ∷ s.work_chan) ≤ unfinished (status_at s.pieces i)
    place i = omega (arith, (k.loose i).once, ap (hand_queues i) e)

    each : (i : ℕ) → count i (j ∷ s.work_chan) ≤ 1
    each i = omega (arith, place i, unfinished-le (status_at s.pieces i))

    nothing_beyond : (i : ℕ) → c.piece_count ≤ i → count i (j ∷ s.work_chan) ≡ 0
    nothing_beyond i le =
        let out : unfinished (status_at s.pieces i) ≡ 0 =
          ap unfinished (beyond s.pieces i (omega (arith, k.size, le))) in
        omega (arith, place i, out)
