-- ===== src/Tracker/State/Usage/Tests.antt =====
-- Runs of the flush and the drain, with a backlog that is a queue.
use weightless.Prelude.{
  ℕ, zero, suc, true, false, ◌≡◌, refl, ap, ◌∙◌, some, List, [], ◌∷◌, ◌++◌, Bytes, codes, length,
  take, drop, arith,
}
use weightless.Prelude.Dict
use weightless.Prelude.Dict.{Dict, Distinct}
use weightless.Prelude.Word.{add64, IsWord}
use weightless.Tracker.State.{UserUsage, SwarmState, init}
use weightless.Tracker.State.Usage.{
  Row, Direction, up, amount, rows_amount, Backlog, IsRange, Answer, status, unreachable,
  flush_users, stored, unacknowledged, left_rows, of_flush, of_drain, drain_backlog,
}
use weightless.Tracker.State.Usage.Flush.{tracked, flush_users-conserves}
use weightless.Tracker.State.Usage.Drain.{stored_rows, drain_backlog-conserves}

rows_amount-IsWord : (d : Direction) (u : Bytes) (rows : List Row) → IsWord (rows_amount d u rows)
rows_amount-IsWord d u [] = omega arith
rows_amount-IsWord d u (r ∷ rows) = ground (arith, rows_amount-IsWord d u rows)

rows_amount-append :
    (d : Direction) (u : Bytes) (rows t : List Row)
    → rows_amount d u (rows ++ t) ≡ add64 (rows_amount d u t) (rows_amount d u rows)
rows_amount-append d u [] t = omega (arith, rows_amount-IsWord d u t)
rows_amount-append d u (r ∷ rows) t = ground (arith, rows_amount-append d u rows t)

rows_amount-split :
    (d : Direction) (u : Bytes) (n : ℕ) (t : List Row)
    → add64 (rows_amount d u (drop n t)) (rows_amount d u (take n t)) ≡ rows_amount d u t
rows_amount-split d u zero t = omega (arith, rows_amount-IsWord d u t)
rows_amount-split d u (suc n) [] = refl
rows_amount-split d u (suc n) (r ∷ t) = ground (arith, rows_amount-split d u n t)

drop-length-take : (n : ℕ) (t : List Row) → drop (length (take n t)) t ≡ drop n t
drop-length-take zero t = refl
drop-length-take (suc n) [] = refl
drop-length-take (suc n) (r ∷ t) = drop-length-take n t

-- New rows in front; the oldest are at the end, and 100 of any are read.
abbrev queue : Backlog
queue = record {
  Table = List Row;
  insert = λ rows t. some (rows ++ t);
  oldest = λ t. some (take 100 t);
  delete = λ rows t. drop (length rows) t;
  undeleted = λ rows t. [];
  held = λ d u t. rows_amount d u t;
  held-IsWord = λ t d u. rows_amount-IsWord d u t;
  held-insert =
      λ rows t t' d u e. ap (rows_amount d u) (the_table e) ∙ rows_amount-append d u rows t;
  held-delete = λ rows t d u e. deleted d u rows t e ∙ omega (arith, rows_amount-IsWord d u t);
}
  where
    the_table : {a b : List Row} → some a ≡ some b → b ≡ a
    the_table h = cc

    deleted :
        (d : Direction) (u : Bytes) (rows t : List Row)
        → some (take 100 t) ≡ some rows
        → add64 (rows_amount d u (drop (length rows) t)) (rows_amount d u rows) ≡ rows_amount d u t
    deleted d u rows t e = rw (the_table e, drop-length-take 100 t) (rows_amount-split d u 100 t)

same_order : IsRange (λ m. m)
same_order = record { same = λ m u. refl; distinct = λ m h. h }

abbrev used : ℕ → UserUsage
used n = record { uploaded = n; downloaded = 2 }

abbrev state : SwarmState
state = record init { users = (codes "ann", used 10) ∷ (codes "bob", used 20) ∷ [] }

abbrev table : List Row
table = record { user = codes "ann"; usage = used 7; created_at = 1 } ∷ []

abbrev accepting : Dict UserUsage → Answer
accepting payload = status 200

abbrev during : List (Bytes × UserUsage)
during = (codes "ann", used 5) ∷ []

abbrev hub : Bytes
hub = codes "http://hub"

-- The answer is lost, and the hub has stored the payload.
abbrev lost : Dict UserUsage → Answer
lost payload = unreachable

flush_users-conserves_example :
    add64
      (add64
        (amount up (
          Dict.get
            (codes "ann")
            (flush_users queue (λ m. m) hub lost during 9 state table).0.users))
        (rows_amount up (codes "ann") (flush_users queue (λ m. m) hub lost during 9 state table).1))
      (amount up
        (Dict.get (codes "ann") (of_flush queue (stored queue true) (λ m. m) hub lost state)))
    ≡ add64
        (add64
          (add64 (amount up (Dict.get (codes "ann") state.users)) (tracked up (codes "ann") during))
          (rows_amount up (codes "ann") table))
        (amount up (
          Dict.get
            (codes "ann")
            (of_flush queue (unacknowledged queue true) (λ m. m) hub lost state)))
flush_users-conserves_example =
    flush_users-conserves queue up (codes "ann") true (λ m. m) same_order hub lost during 9 state
      table (unfold Dict.get in (refl, (refl, tt))) (unfold Dict.get in omega arith)

drain_backlog-conserves_example :
    add64 (rows_amount up (codes "ann") (drain_backlog queue hub accepting table)) (
      amount up (
        Dict.get
          (codes "ann")
          (of_drain queue (stored_rows queue up (codes "ann") false) hub accepting table)))
    ≡ add64 (rows_amount up (codes "ann") table) (
        rows_amount up (codes "ann") (
          of_drain queue
            (λ answer rows. left_rows queue false answer rows table)
            hub
            accepting
            table))
drain_backlog-conserves_example =
    drain_backlog-conserves queue up (codes "ann") false hub accepting table
