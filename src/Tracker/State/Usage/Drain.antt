-- ===== src/Tracker/State/Usage/Drain.antt =====
-- Draining the backlog: what the table holds, and what the hub has stored.
use weightless.Prelude.{
  Bool, true, false, ◌===◌, Bool-cases, inl, inr, ◌≡◌, refl, Option, none, some, List, [], ◌∷◌,
  Bytes, ===_iff, arith,
}
use weightless.Prelude.Dict
use weightless.Prelude.Dict.{Dict, get-put}
use weightless.Prelude.Word.{add64, IsWord}
use weightless.Tracker.State.{UserUsage, add_usage, usage_or_zero}
use weightless.Tracker.State.Usage.{
  Direction, amount, Row, rows_amount, accumulate, Backlog, Answer, unreachable, status, drained,
  drain_rows, drain_backlog, stored, left_rows, of_rows, of_drain,
}
use weightless.Tracker.State.Usage.Flush.{field-add_usage, field-usage_or_zero}

-- The payload holds, for each user, the sum of that user's rows.
amount-accumulate :
    (d : Direction) (u : Bytes) (rows : List Row) (payload : Dict UserUsage)
    → IsWord (amount d (Dict.get u payload))
    → amount d (Dict.get u (accumulate rows payload))
      ≡ add64 (amount d (Dict.get u payload)) (rows_amount d u rows)
unfolding accumulate
amount-accumulate d u [] payload w = omega arith
amount-accumulate d u (r ∷ rows) payload w =
    let total = add_usage (usage_or_zero (Dict.get r.user payload)) r.usage in
    ground (
      arith,
      get-put r.user u total payload,
      ===_iff r.user u,
      field-add_usage d (usage_or_zero (Dict.get r.user payload)) r.usage,
      field-usage_or_zero d (Dict.get r.user payload),
      amount-accumulate d u rows (Dict.put r.user total payload),
    )

rows_amount-IsWord : (d : Direction) (u : Bytes) (rows : List Row) → IsWord (rows_amount d u rows)
rows_amount-IsWord d u [] = omega arith
rows_amount-IsWord d u (r ∷ rows) = ground (arith, rows_amount-IsWord d u rows)

module _ (b : Backlog) (d : Direction) (u : Bytes) where
  open b use {Table, oldest, held, held-delete, held-IsWord, delete, undeleted}

  -- What the hub has stored of the rows that were read
  abbrev pub stored_rows : Bool → Answer → List Row → Dict UserUsage
  stored_rows took answer rows = stored b took answer (accumulate rows [])

  drained-conserves :
      (took : Bool) (answer : Answer) (rows : List Row) (t : Table)
      → oldest t ≡ some rows
      → add64
          (held d u (drained b answer rows t))
          (amount d (Dict.get u (stored_rows took answer rows)))
        ≡ add64 (held d u t) (rows_amount d u (left_rows b took answer rows t))
  unfolding drained Dict.get
  drained-conserves true unreachable rows t e =
      omega (arith, held-IsWord t d u, amount-accumulate d u rows [], rows_amount-IsWord d u rows)
  drained-conserves false unreachable rows t e = refl
  drained-conserves took (status code) rows t e = ground (
    arith,
    held-IsWord t d u,
    held-delete rows t d u e,
    amount-accumulate d u rows [],
    rows_amount-IsWord d u rows,
  )

  drain_rows-conserves :
      (took : Bool) (post : Dict UserUsage → Answer) (rows : Option (List Row)) (t : Table)
      → oldest t ≡ rows
      → add64
          (held d u (drain_rows b post rows t))
          (amount d (Dict.get u (of_rows b (stored_rows took) post rows)))
        ≡ add64
            (held d u t)
            (rows_amount d u (of_rows b (λ answer read. left_rows b took answer read t) post rows))
  unfolding drain_rows Dict.get
  drain_rows-conserves took post none t e = refl
  drain_rows-conserves took post (some []) t e = refl
  drain_rows-conserves took post (some (r ∷ rows)) t e =
      drained-conserves took (post (accumulate (r ∷ rows) [])) (r ∷ rows) t e

  -- For every user and both directions, what the table holds after a round and what the hub has stored
  -- make up what the table held, and the rows that the hub has stored and that the table keeps: those
  -- whose DELETE failed, or all that were sent if the hub stored them without an answer of 200. The hub
  -- stores what it answers with 200, and may or may not store what it answers otherwise or not at
  -- all; the amounts are int64 and wrap.
  pub drain_backlog-conserves :
      (took : Bool) (hub_url : Bytes) (post : Dict UserUsage → Answer) (t : Table)
      → add64
          (held d u (drain_backlog b hub_url post t))
          (amount d (Dict.get u (of_drain b (stored_rows took) hub_url post t)))
        ≡ add64 (held d u t) (
            rows_amount d u
              (of_drain b (λ answer rows. left_rows b took answer rows t) hub_url post t))
  unfolding drain_backlog
  drain_backlog-conserves took hub_url post t = elim (Bool-cases (hub_url === [])) [
    | inl off ↦ rw off (unfold Dict.get in refl)
    | inr on ↦ rw on (drain_rows-conserves took post (oldest t) t refl)
  ]
