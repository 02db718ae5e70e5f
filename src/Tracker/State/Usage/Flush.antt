-- ===== src/Tracker/State/Usage/Flush.antt =====
-- A flush loses no usage, also what is tracked while the request is out; what it counts twice is what
-- the hub has stored without acknowledging it.
use weightless.Prelude.{
  Bool, true, false, ℕ, ◌≡◌, refl, Option, none, some, List, [], ◌∷◌, Bytes, ◌==◌, ◌===◌, ===_iff,
  if◌then◌else◌, arith, Option-cases, inl, inr, Bool-cases, ◌∙◌, sym, ap, subst, ◌||◌,
}
use weightless.Prelude.Dict
use weightless.Prelude.Dict.{Dict, get-put, Distinct}
use weightless.Prelude.Word.{add64, sub64, IsWord}
use weightless.Tracker.State.{
  UserUsage, SwarmState, add_usage, usage_or_zero, track_usage, is_empty,
}
use weightless.Tracker.State.Usage.{
  Direction, up, down, amount, field, rows_amount, run_tracked, backlog_rows, Backlog, IsRange,
  Answer, unreachable, status, backed_up, finish_flush, flush_users, credited, stored,
  unacknowledged, of_flush, settle,
}
use weightless.Tracker.State.Usage.Settle.{amount-settle_loop, settle_loop_absent}

-- What calls of TrackUsage add to a user.
abbrev pub tracked : Direction → Bytes → List (Bytes × UserUsage) → ℕ
tracked d u [] = 0
tracked d u ((user, delta) ∷ calls) =
    if user === u then add64 (field d delta) (tracked d u calls) else tracked d u calls

pub field-add_usage :
    (d : Direction) (a b : UserUsage) → field d (add_usage a b) ≡ add64 (field d a) (field d b)
field-add_usage up a b = refl
field-add_usage down a b = refl

pub field-usage_or_zero :
    (d : Direction) (o : Option UserUsage) → field d (usage_or_zero o) ≡ amount d o
field-usage_or_zero up none = refl
field-usage_or_zero down none = refl
field-usage_or_zero d (some x) = refl

pub amount-track_usage :
    (d : Direction) (user u : Bytes) (delta : UserUsage) (s : SwarmState)
    → amount d (Dict.get u (track_usage user delta s).users) ≡ (
        if user === u
        then add64 (amount d (Dict.get u s.users)) (field d delta)
        else amount d (Dict.get u s.users))
unfolding track_usage
amount-track_usage d user u delta s =
    let total = add_usage (usage_or_zero (Dict.get user s.users)) delta in
    rw (get-put user u total s.users) (
      ground (
        arith,
        ===_iff user u,
        field-add_usage d (usage_or_zero (Dict.get user s.users)) delta,
        field-usage_or_zero d (Dict.get user s.users),
      ))

pub amount-run_tracked :
    (d : Direction) (u : Bytes) (calls : List (Bytes × UserUsage)) (s : SwarmState)
    → IsWord (amount d (Dict.get u s.users))
    → amount d (Dict.get u (run_tracked calls s).users)
      ≡ add64 (amount d (Dict.get u s.users)) (tracked d u calls)
unfolding run_tracked
amount-run_tracked d u [] s w = omega arith
amount-run_tracked d u ((user, delta) ∷ calls) s w = ground (
  arith,
  amount-track_usage d user u delta s,
  amount-run_tracked d u calls (track_usage user delta s),
)

track_usage_present :
    (user u : Bytes) (delta : UserUsage) (s : SwarmState) {x : UserUsage}
    → Dict.get u s.users ≡ some x
    → (y : UserUsage) × (Dict.get u (track_usage user delta s).users ≡ some y)
unfolding track_usage
track_usage_present user u delta s {x} h =
    let total = add_usage (usage_or_zero (Dict.get user s.users)) delta in
    (if user === u then total else x, rw (get-put user u total s.users) (ground arith))

-- A user who is there stays.
run_tracked_present :
    (u : Bytes) (calls : List (Bytes × UserUsage)) (s : SwarmState) {x : UserUsage}
    → Dict.get u s.users ≡ some x
    → (y : UserUsage) × (Dict.get u (run_tracked calls s).users ≡ some y)
unfolding run_tracked
run_tracked_present u [] s {x} h = (x, h)
run_tracked_present u ((user, delta) ∷ calls) s {x} h =
    let (y, e) = track_usage_present user u delta s {x = x} h in
    run_tracked_present u calls (track_usage user delta s) {x = y} e

add64-sub64 : (a b : ℕ) → IsWord a → IsWord b → add64 (sub64 a b) b ≡ a
add64-sub64 a b ha hb = omega arith

rows_amount-backlog_rows :
    (d : Direction) (u : Bytes) (now : ℕ) (payload : Dict UserUsage)
    → Distinct payload
    → IsWord (amount d (Dict.get u payload))
    → rows_amount d u (backlog_rows now payload) ≡ amount d (Dict.get u payload)
unfolding Dict.get
rows_amount-backlog_rows d u now [] distinct w = refl
rows_amount-backlog_rows d u now ((id, x) ∷ payload) distinct w =
    ground (arith, ===_iff id u, rows_amount-backlog_rows d u now payload)

module _ (order : Dict UserUsage → Dict UserUsage) (range : IsRange order) (d : Direction)
    (u : Bytes) (s : SwarmState) (distinct : Distinct s.users)
    (word : IsWord (amount d (Dict.get u s.users))) (during : List (Bytes × UserUsage)) where
  -- What is left and what was sent make up what was there.
  amount-settle :
      add64
        (amount d (Dict.get u (settle (order s.users) (run_tracked during s)).users))
        (amount d (Dict.get u (order s.users)))
      ≡ amount d (Dict.get u (run_tracked during s).users)
  amount-settle = elim (Option-cases (Dict.get u s.users)) [
    | inl absent ↦
        let gone : Dict.get u (order s.users) ≡ none = range.same s.users u ∙ absent in
        rw (settle_loop_absent (order s.users) u (run_tracked during s).users gone, gone)
          (omega (arith, amount-run_tracked d u during s word))
    | inr (x, there) ↦
        let sent : Dict.get u (order s.users) ≡ some x = range.same s.users u ∙ there in
        let (y, live) = run_tracked_present u during s {x = x} there in
        rw
          (
            amount-settle_loop d (order s.users) u (run_tracked during s).users {sent = x}
                {live = y} (range.distinct s.users distinct) sent live,
            sent,
            live,
          )
          (add64-sub64 (field d y) (field d x)
            (subst (λ o. IsWord (amount d o)) live
              (omega (arith, amount-run_tracked d u during s word)))
            (subst (λ o. IsWord (amount d o)) there word))
  ]

module _ (b : Backlog) (d : Direction) (u : Bytes) where
  open b use {Table, held, held-insert, held-IsWord, insert}

  finish_conserves :
      (answer : Answer) (payload : Dict UserUsage) (now : ℕ) (s : SwarmState) (t : Table)
      → Distinct payload
      → IsWord (amount d (Dict.get u payload))
      → IsWord (amount d (Dict.get u s.users))
      → add64 (amount d (Dict.get u (settle payload s).users)) (amount d (Dict.get u payload))
        ≡ amount d (Dict.get u s.users)
      → add64
          (add64
            (amount d (Dict.get u (finish_flush b answer payload now s t).0.users))
            (held d u (finish_flush b answer payload now s t).1))
          (amount d (Dict.get u (credited b answer payload)))
        ≡ add64 (amount d (Dict.get u s.users)) (held d u t)
  unfolding finish_flush Dict.get
  finish_conserves unreachable payload now s t distinct wp ws settled =
      omega (arith, held-IsWord t d u)
  finish_conserves (status code) payload now s t distinct wp ws settled =
      elim (Bool-cases (code == 200)) [
        | inl accepted ↦ rw accepted (omega (arith, held-IsWord t d u))
        | inr refused ↦ rw refused (backed (insert (backlog_rows now payload) t) refl)
      ]
    where
      backed :
          (stored : Option Table)
          → insert (backlog_rows now payload) t ≡ stored
          → add64
              (add64
                (amount d (Dict.get u (backed_up b stored payload s t).0.users))
                (held d u (backed_up b stored payload s t).1))
              (amount d (Dict.get u []))
            ≡ add64 (amount d (Dict.get u s.users)) (held d u t)
      backed none e = omega (arith, held-IsWord t d u)
      backed (some t') e = omega (
        arith,
        held-insert (backlog_rows now payload) t t' d u e,
        rows_amount-backlog_rows d u now payload distinct wp,
        held-IsWord t d u,
      )

  flush_users-credited :
      (order : Dict UserUsage → Dict UserUsage) (range : IsRange order) (hub_url : Bytes)
      (post : Dict UserUsage → Answer) (during : List (Bytes × UserUsage)) (now : ℕ)
      (s : SwarmState) (t : Table)
      → Distinct s.users
      → IsWord (amount d (Dict.get u s.users))
      → add64
          (add64
            (amount d (Dict.get u (flush_users b order hub_url post during now s t).0.users))
            (held d u (flush_users b order hub_url post during now s t).1))
          (amount d (Dict.get u (of_flush b (credited b) order hub_url post s)))
        ≡ add64 (add64 (amount d (Dict.get u s.users)) (tracked d u during)) (held d u t)
  unfolding flush_users
  flush_users-credited order range hub_url post during now s t distinct word =
      let total = amount-run_tracked d u during s word in
      elim (Bool-cases (is_empty s.users || hub_url === [])) [
        | inl skipped ↦ rw skipped (unfold Dict.get in omega (arith, total, held-IsWord t d u))
        | inr sent ↦ rw sent (
            finish_conserves (post (order s.users)) (order s.users) now (run_tracked during s) t
              (range.distinct s.users distinct)
              (subst (λ o. IsWord (amount d o)) (sym (range.same s.users u)) word)
              (omega (arith, total)) (amount-settle order range d u s distinct word during)
            ∙ ap (λ n. add64 n (held d u t)) total)
      ]

  -- What the hub has stored is what it has acknowledged and what it will be sent again.
  stored-credited :
      (took : Bool) (answer : Answer) (payload : Dict UserUsage)
      → IsWord (amount d (Dict.get u payload))
      → amount d (Dict.get u (stored b took answer payload))
        ≡ add64
            (amount d (Dict.get u (credited b answer payload)))
            (amount d (Dict.get u (unacknowledged b took answer payload)))
  unfolding Dict.get
  stored-credited true unreachable payload w = omega (arith, w)
  stored-credited false unreachable payload w = refl
  stored-credited took (status code) payload w = ground (arith, w)

  of_flush-stored :
      (took : Bool) (order : Dict UserUsage → Dict UserUsage) (range : IsRange order)
      (hub_url : Bytes) (post : Dict UserUsage → Answer) (s : SwarmState)
      → IsWord (amount d (Dict.get u s.users))
      → amount d (Dict.get u (of_flush b (stored b took) order hub_url post s))
        ≡ add64
            (amount d (Dict.get u (of_flush b (credited b) order hub_url post s)))
            (amount d (Dict.get u (of_flush b (unacknowledged b took) order hub_url post s)))
  of_flush-stored took order range hub_url post s word =
      elim (Bool-cases (is_empty s.users || hub_url === [])) [
        | inl skipped ↦ rw skipped (unfold Dict.get in refl)
        | inr sent ↦ rw sent (
            stored-credited took (post (order s.users)) (order s.users)
              (subst (λ o. IsWord (amount d o)) (sym (range.same s.users u)) word))
      ]

  -- For every user and both directions: what memory and backlog hold after a flush, with what the hub
  -- has stored, is what memory and backlog held before it, with what was tracked during the request
  -- and with what the hub has stored without an answer of 200, which is there twice and will be sent
  -- again. The hub stores what it answers with 200, and may or may not store what it answers
  -- otherwise or not at all. It holds for a backlog that fails or not, and for every order of the
  -- visits; the amounts are int64 and wrap.
  pub flush_users-conserves :
      (took : Bool) (order : Dict UserUsage → Dict UserUsage) (range : IsRange order)
      (hub_url : Bytes) (post : Dict UserUsage → Answer) (during : List (Bytes × UserUsage))
      (now : ℕ) (s : SwarmState) (t : Table)
      → Distinct s.users
      → IsWord (amount d (Dict.get u s.users))
      → add64
          (add64
            (amount d (Dict.get u (flush_users b order hub_url post during now s t).0.users))
            (held d u (flush_users b order hub_url post during now s t).1))
          (amount d (Dict.get u (of_flush b (stored b took) order hub_url post s)))
        ≡ add64
            (add64 (add64 (amount d (Dict.get u s.users)) (tracked d u during)) (held d u t))
            (amount d (Dict.get u (of_flush b (unacknowledged b took) order hub_url post s)))
  flush_users-conserves took order range hub_url post during now s t distinct word = omega (
    arith,
    flush_users-credited order range hub_url post during now s t distinct word,
    of_flush-stored took order range hub_url post s word,
  )
