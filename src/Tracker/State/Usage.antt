-- ===== src/Tracker/State/Usage.antt =====
-- FlushUsers, backupUsageToDB and DrainBacklog of internal/tracker/state.go. The hub's answer and the
-- table usage_backlog are parameters.
pub mod Settle
pub mod Flush
pub mod Drain
mod Tests
use weightless.Prelude.{
  ℕ, ◌+◌, ◌≡◌, Bool, true, false, ◌&&◌, ◌||◌, Option, none, some, List, [], ◌∷◌, Bytes, ◌==◌, ◌===◌,
  if◌then◌else◌,
}
use weightless.Prelude.Dict
use weightless.Prelude.Dict.{Dict, Distinct}
use weightless.Prelude.Word.{add64, IsWord}
use weightless.Tracker.State.{
  UserUsage, SwarmState, add_usage, sub_usage, usage_or_zero, track_usage, is_empty,
}

-- A row of the table usage_backlog.
pub record Row : Type 0 where
  pub user : Bytes
  pub usage : UserUsage
  pub created_at : ℕ

pub data Direction : Type 0 where
  up down : Direction

abbrev pub field : Direction → UserUsage → ℕ
field up u = u.uploaded
field down u = u.downloaded

abbrev pub amount : Direction → Option UserUsage → ℕ
amount d none = 0
amount d (some u) = field d u

-- What rows hold for a user, as int64.
abbrev pub rows_amount : Direction → Bytes → List Row → ℕ
rows_amount d u [] = 0
rows_amount d u (r ∷ rows) =
    if r.user === u then add64 (field d r.usage) (rows_amount d u rows) else rows_amount d u rows

-- Each entry is visited once; the order is open.
pub record IsRange (order : Dict UserUsage → Dict UserUsage) : Type 0 where
  pub same : (m : Dict UserUsage) (u : Bytes) → Dict.get u (order m) ≡ Dict.get u m
  pub distinct : (m : Dict UserUsage) → Distinct m → Distinct (order m)

-- The table, reached by transactions: `insert` stores all rows or fails and stores none, `oldest`
-- reads up to 100 rows, and `delete` removes the rows read but for those whose DELETE fails, which
-- are `undeleted`: the program passes over these errors.
pub record Backlog : Type 1 where
  pub Table : Type 0
  pub insert : List Row → Table → Option Table
  pub oldest : Table → Option (List Row)
  pub delete : List Row → Table → Table
  pub undeleted : List Row → Table → List Row
  pub held : Direction → Bytes → Table → ℕ
  pub held-IsWord : (t : Table) (d : Direction) (u : Bytes) → IsWord (held d u t)
  pub held-insert :
      (rows : List Row) (t t' : Table) (d : Direction) (u : Bytes)
      → insert rows t ≡ some t'
      → held d u t' ≡ add64 (held d u t) (rows_amount d u rows)
  pub held-delete :
      (rows : List Row) (t : Table) (d : Direction) (u : Bytes)
      → oldest t ≡ some rows
      → add64 (held d u (delete rows t)) (rows_amount d u rows)
        ≡ add64 (held d u t) (rows_amount d u (undeleted rows t))

-- The answer to the POST: a status code, or an error before there was one.
pub data Answer : Type 0 where
  unreachable : Answer
  status : ℕ → Answer

-- One round of the last loop of FlushUsers; a user who is gone is passed over.
pub settle_one : Bytes → UserUsage → Option UserUsage → Dict UserUsage → Dict UserUsage
settle_one id sent none users = users
settle_one id sent (some live) users =
    let rest = sub_usage live sent in
    if rest.uploaded == 0 && rest.downloaded == 0
    then Dict.remove id users
    else Dict.put id rest users

pub settle_loop : Dict UserUsage → Dict UserUsage → Dict UserUsage
unfolding settle_one
settle_loop [] users = users
settle_loop ((id, sent) ∷ payload) users =
    settle_loop payload (settle_one id sent (Dict.get id users) users)

abbrev pub settle : Dict UserUsage → SwarmState → SwarmState
settle payload s = record s { users = settle_loop payload s.users }

-- Calls of TrackUsage, in order.
pub run_tracked : List (Bytes × UserUsage) → SwarmState → SwarmState
unfolding track_usage
run_tracked [] s = s
run_tracked ((user, delta) ∷ calls) s = run_tracked calls (track_usage user delta s)

abbrev pub backlog_rows : ℕ → Dict UserUsage → List Row
backlog_rows now [] = []
backlog_rows now ((id, u) ∷ rest) =
    record { user = id; usage = u; created_at = now } ∷ backlog_rows now rest

-- existing := payload[r.id]; existing += r.u; payload[r.id] = existing
pub accumulate : List Row → Dict UserUsage → Dict UserUsage
accumulate [] payload = payload
accumulate (r ∷ rows) payload =
    accumulate rows
      (Dict.put r.user (add_usage (usage_or_zero (Dict.get r.user payload)) r.usage) payload)

module _ (b : Backlog) where
  open b use {Table, insert, oldest, delete, undeleted}

  -- The rows are stored whole, or the usage stays in memory.
  pub backed_up : Option Table → Dict UserUsage → SwarmState → Table → SwarmState × Table
  backed_up none payload s t = (s, t)
  backed_up (some t') payload s t = (settle payload s, t')

  -- Behind the POST.
  pub finish_flush : Answer → Dict UserUsage → ℕ → SwarmState → Table → SwarmState × Table
  unfolding backed_up
  finish_flush unreachable payload now s t = (s, t)
  finish_flush (status code) payload now s t =
      if code == 200
      then (settle payload s, t)
      else backed_up (insert (backlog_rows now payload) t) payload s t

  -- `order` is the order in which the maps are visited, `post` the hub, and `during` the calls of
  -- TrackUsage between the release of the read lock and the write lock.
  pub flush_users :
      (Dict UserUsage → Dict UserUsage)
      → Bytes
      → (Dict UserUsage → Answer)
      → List (Bytes × UserUsage)
      → ℕ
      → SwarmState
      → Table
      → SwarmState × Table
  unfolding finish_flush run_tracked
  flush_users order hub_url post during now s t =
      let payload = order s.users in
      if is_empty s.users || hub_url === []
      then (run_tracked during s, t)
      else finish_flush (post payload) payload now (run_tracked during s) t

  -- What the hub has acknowledged of a flush.
  abbrev pub credited : Answer → Dict UserUsage → Dict UserUsage
  credited unreachable payload = []
  credited (status code) payload = if code == 200 then payload else []

  -- What the hub has stored: what it has acknowledged, and without that, what it `took` all the same
  -- when its answer was lost or another.
  abbrev pub stored : Bool → Answer → Dict UserUsage → Dict UserUsage
  stored took unreachable payload = if took then payload else []
  stored took (status code) payload = if code == 200 || took then payload else []

  -- What it has stored and will be sent again
  abbrev pub unacknowledged : Bool → Answer → Dict UserUsage → Dict UserUsage
  unacknowledged took unreachable payload = if took then payload else []
  unacknowledged took (status code) payload =
      if code == 200 then [] else if took then payload else []

  abbrev pub of_flush :
      (Answer → Dict UserUsage → Dict UserUsage)
      → (Dict UserUsage → Dict UserUsage)
      → Bytes
      → (Dict UserUsage → Answer)
      → SwarmState
      → Dict UserUsage
  of_flush part order hub_url post s =
      if is_empty s.users || hub_url === [] then [] else part (post (order s.users)) (order s.users)

  -- Behind the POST of DrainBacklog: rows are deleted only if the hub has answered 200.
  pub drained : Answer → List Row → Table → Table
  drained unreachable rows t = t
  drained (status code) rows t = if code == 200 then delete rows t else t

  -- Behind the query of DrainBacklog.
  pub drain_rows : (Dict UserUsage → Answer) → Option (List Row) → Table → Table
  unfolding accumulate drained
  drain_rows post none t = t
  drain_rows post (some []) t = t
  drain_rows post (some (r ∷ rows)) t = drained (post (accumulate (r ∷ rows) [])) (r ∷ rows) t

  pub drain_backlog : Bytes → (Dict UserUsage → Answer) → Table → Table
  unfolding drain_rows
  drain_backlog hub_url post t = if hub_url === [] then t else drain_rows post (oldest t) t

  -- The rows that the hub has stored and that the table keeps, to be sent again
  abbrev pub left_rows : Bool → Answer → List Row → Table → List Row
  left_rows took unreachable rows t = if took then rows else []
  left_rows took (status code) rows t =
      if code == 200 then undeleted rows t else if took then rows else []

  abbrev pub of_rows {ℓ} :
      {A : Type ℓ}
      → (Answer → List Row → List A)
      → (Dict UserUsage → Answer)
      → Option (List Row)
      → List A
  of_rows part post none = []
  of_rows part post (some []) = []
  of_rows part post (some (r ∷ rows)) = part (post (accumulate (r ∷ rows) [])) (r ∷ rows)

  abbrev pub of_drain {ℓ} :
      {A : Type ℓ}
      → (Answer → List Row → List A)
      → Bytes
      → (Dict UserUsage → Answer)
      → Table
      → List A
  of_drain part hub_url post t = if hub_url === [] then [] else of_rows part post (oldest t)
