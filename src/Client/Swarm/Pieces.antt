-- ===== src/Client/Swarm/Pieces.antt =====
-- What a step does to one piece: to how often it stands in the queue, how many workers have it, and
-- its status.
use weightless.Prelude.{
  ℕ, ◌+◌, ◌≤◌, ◌≡◌, refl, true, Option, none, some, ◌==◌, if◌then◌else◌, arith,
}
use weightless.Client.Swarm.{PieceStatus, pending, in_progress, completed, is_pending}
use weightless.Client.Swarm.Tokens.{same, unfinished, busy, overwritten}

-- It is in one place at most, and only with a worker if it is in progress.
pub record IsLoose (n h : ℕ) (st : Option PieceStatus) : Type 0 where
  pub once : n + h ≤ unfinished st
  pub working : h ≤ busy st

-- It is in one place, and with a worker if it is in progress.
pub record IsTight (n h : ℕ) (st : Option PieceStatus) : Type 0 where
  pub somewhere : unfinished st ≤ n + h
  pub at_work : busy st ≤ h

module _ (j i n h : ℕ) where
  pub pull-IsLoose :
      (st : Option PieceStatus)
      → IsLoose (same j i + n) h st
      → IsLoose n (same j i + h) (if j == i then overwritten in_progress st else st)
  pull-IsLoose none k = record { once = ground (arith, k.once); working = ground (arith, k.once) }
  pull-IsLoose (some pending) k = record {
    once = ground (arith, k.once, k.working);
    working = ground (arith, k.once, k.working);
  }
  pull-IsLoose (some in_progress) k = record {
    once = ground (arith, k.once, k.working);
    working = ground (arith, k.once, k.working);
  }
  pull-IsLoose (some completed) k = record {
    once = ground (arith, k.once, k.working);
    working = ground (arith, k.once, k.working);
  }

  pub pull-IsTight :
      (st : Option PieceStatus)
      → IsTight (same j i + n) h st
      → IsTight n (same j i + h) (if j == i then overwritten in_progress st else st)
  pull-IsTight none k = record { somewhere = ground arith; at_work = ground arith }
  pull-IsTight (some pending) k = record {
    somewhere = ground (arith, k.somewhere);
    at_work = ground (arith, k.at_work);
  }
  pull-IsTight (some in_progress) k = record {
    somewhere = ground (arith, k.somewhere);
    at_work = ground (arith, k.at_work);
  }
  pull-IsTight (some completed) k = record {
    somewhere = ground (arith, k.somewhere);
    at_work = ground (arith, k.at_work);
  }

  pub skip-IsLoose : (st : Option PieceStatus) → IsLoose (same j i + n) h st → IsLoose n h st
  skip-IsLoose st k = record { once = omega (arith, k.once); working = k.working }

  pub requeue-IsLoose :
      (st : Option PieceStatus)
      → IsLoose n (same j i + h) st
      → IsLoose (same j i + n) h (if j == i then overwritten pending st else st)
  requeue-IsLoose none k = record {
    once = ground (arith, k.once);
    working = ground (arith, k.once);
  }
  requeue-IsLoose (some pending) k = record {
    once = ground (arith, k.once, k.working);
    working = ground (arith, k.once, k.working);
  }
  requeue-IsLoose (some in_progress) k = record {
    once = ground (arith, k.once, k.working);
    working = ground (arith, k.once, k.working);
  }
  requeue-IsLoose (some completed) k = record {
    once = ground (arith, k.once, k.working);
    working = ground (arith, k.once, k.working);
  }

  pub requeue-IsTight :
      (st : Option PieceStatus)
      → IsTight n (same j i + h) st
      → IsTight (same j i + n) h (if j == i then overwritten pending st else st)
  requeue-IsTight none k = record { somewhere = ground arith; at_work = ground arith }
  requeue-IsTight (some pending) k = record {
    somewhere = ground (arith, k.somewhere);
    at_work = ground (arith, k.at_work);
  }
  requeue-IsTight (some in_progress) k = record {
    somewhere = ground (arith, k.somewhere);
    at_work = ground (arith, k.at_work);
  }
  requeue-IsTight (some completed) k = record {
    somewhere = ground (arith, k.somewhere);
    at_work = ground (arith, k.at_work);
  }

  -- The piece is written, or its worker's result is dropped.
  pub finish-IsLoose :
      (st : Option PieceStatus)
      → IsLoose n (same j i + h) st
      → IsLoose n h (if j == i then overwritten completed st else st)
  finish-IsLoose none k = record { once = ground (arith, k.once); working = ground (arith, k.once) }
  finish-IsLoose (some pending) k = record {
    once = ground (arith, k.once, k.working);
    working = ground (arith, k.once, k.working);
  }
  finish-IsLoose (some in_progress) k = record {
    once = ground (arith, k.once, k.working);
    working = ground (arith, k.once, k.working);
  }
  finish-IsLoose (some completed) k = record {
    once = ground (arith, k.once, k.working);
    working = ground (arith, k.once, k.working);
  }

  pub finish-IsTight :
      (st : Option PieceStatus)
      → IsTight n (same j i + h) st
      → IsTight n h (if j == i then overwritten completed st else st)
  finish-IsTight none k = record { somewhere = ground arith; at_work = ground arith }
  finish-IsTight (some pending) k = record {
    somewhere = ground (arith, k.somewhere);
    at_work = ground (arith, k.at_work);
  }
  finish-IsTight (some in_progress) k = record {
    somewhere = ground (arith, k.somewhere);
    at_work = ground (arith, k.at_work);
  }
  finish-IsTight (some completed) k = record {
    somewhere = ground (arith, k.somewhere);
    at_work = ground (arith, k.at_work);
  }

  pub forget-IsLoose :
      (st : Option PieceStatus)
      → IsLoose n (same j i + h) st
      → IsLoose n h (if j == i then overwritten pending st else st)
  forget-IsLoose none k = record { once = ground (arith, k.once); working = ground (arith, k.once) }
  forget-IsLoose (some pending) k = record {
    once = ground (arith, k.once, k.working);
    working = ground (arith, k.once, k.working);
  }
  forget-IsLoose (some in_progress) k = record {
    once = ground (arith, k.once, k.working);
    working = ground (arith, k.once, k.working);
  }
  forget-IsLoose (some completed) k = record {
    once = ground (arith, k.once, k.working);
    working = ground (arith, k.once, k.working);
  }

  pub drop-IsLoose : (st : Option PieceStatus) → IsLoose n (same j i + h) st → IsLoose n h st
  drop-IsLoose st k = record { once = omega (arith, k.once); working = omega (arith, k.working) }

-- While nothing is lost, a piece in the queue is pending.
pub queued_is_pending :
    (n h : ℕ) (st : Option PieceStatus)
    → IsLoose (1 + n) h st
    → IsTight (1 + n) h st
    → is_pending st ≡ true
queued_is_pending n h none k t = absurd (omega (arith, k.once))
queued_is_pending n h (some pending) k t = refl
queued_is_pending n h (some in_progress) k t = absurd (omega (arith, k.once, t.at_work))
queued_is_pending n h (some completed) k t = absurd (omega (arith, k.once))
