-- ===== src/Tracker/Announce/Credit.antt =====
-- What announces credit to users: the progress of a session, to the user of the passkey only.
use weightless.Prelude.{
  ℕ, ◌-◌, ◌^◌, ◌<◌, ◌≡◌, refl, ap, ◌∙◌, false, not, ◌&&◌, ◌||◌, Option, none, some, [], Bytes,
  ◌===◌, ltb, if◌then◌else◌, arith, Bool-cases, inl, inr,
}
use weightless.Prelude.Decimal.{decimal}
use weightless.Prelude.Dict
use weightless.Prelude.HostPort.{join_host_port}
use weightless.Prelude.Word.{add64, sub64, IsWord}
use weightless.Tracker.Recognize.{AnnounceParams, info_hash_hex}
use weightless.Tracker.State.{Peer, SwarmState, get_peer, update_peer, remove_peer}
use weightless.Tracker.State.Usage.{Direction, up, down, field, amount}
use weightless.Tracker.State.Usage.Flush.{amount-track_usage}
use weightless.Tracker.Announce.{
  Env, execute_announce, is_stopped, peer_of, record_peer, credit_user, credit_since, clamped,
  delta_of,
}
use weightless.Tracker.Announce.Effects.{IsServed, execute_announce-served}

-- The counter of a request and of a peer's entry
abbrev pub sent : Direction → AnnounceParams → ℕ
sent up p = p.uploaded
sent down p = p.downloaded

abbrev pub seen : Direction → Peer → ℕ
seen up p = p.uploaded
seen down p = p.downloaded

clamped-sub64 : (a b : ℕ) → a < 2 ^ 63 → b < 2 ^ 63 → clamped (sub64 a b) ≡ a - b
clamped-sub64 a b ha hb = ground arith

-- The session's progress since the entry: a counter that went back gives nothing.
abbrev pub progress : Direction → AnnounceParams → Option Peer → ℕ
progress d p none = 0
progress d p (some old) = sent d p - seen d old

pub record IsCounted (p : AnnounceParams) : Type 0 where
  pub uploaded : p.uploaded < 2 ^ 63
  pub downloaded : p.downloaded < 2 ^ 63

abbrev pub IsCountedEntry : Option Peer → Type 0
IsCountedEntry none = Unit
IsCountedEntry (some old) = (old.uploaded < 2 ^ 63) × (old.downloaded < 2 ^ 63)

field-delta_of :
    (d : Direction) (p : AnnounceParams) (old : Peer)
    → IsCounted p
    → IsCountedEntry (some old)
    → field d (delta_of p old) ≡ sent d p - seen d old
field-delta_of up p old h k = clamped-sub64 p.uploaded old.uploaded h.uploaded k.0
field-delta_of down p old h k = clamped-sub64 p.downloaded old.downloaded h.downloaded k.1

-- Without progress in either direction there is none in one.
no_progress :
    (d : Direction) (p : AnnounceParams) (old : Peer)
    → (ltb 0 (delta_of p old).uploaded || ltb 0 (delta_of p old).downloaded) ≡ false
    → field d (delta_of p old) ≡ 0
no_progress up p old h = ground arith
no_progress down p old h = ground arith

amount-credit_since :
    (d : Direction) (user u : Bytes) (p : AnnounceParams) (old : Option Peer) (s : SwarmState)
    → IsCounted p
    → IsCountedEntry old
    → IsWord (amount d (Dict.get u s.users))
    → amount d (Dict.get u (credit_since user p old s).users) ≡ (
        if user === u
        then add64 (amount d (Dict.get u s.users)) (progress d p old)
        else amount d (Dict.get u s.users))
amount-credit_since d user u p none s h k w = ground arith
amount-credit_since d user u p (some old) s h k w =
    let same = field-delta_of d p old h k in
    elim (Bool-cases (ltb 0 (delta_of p old).uploaded || ltb 0 (delta_of p old).downloaded)) [
      | inl some_progress ↦
          rw some_progress (amount-track_usage d user u (delta_of p old) s ∙ rw same refl)
      | inr none_made ↦ rw none_made (ground (arith, same, no_progress d p old none_made))
    ]

amount-credit_user :
    (d : Direction) (user u : Bytes) (p : AnnounceParams) (s : SwarmState)
    → IsCounted p
    → IsCountedEntry (get_peer (info_hash_hex p) p.peer_id s)
    → IsWord (amount d (Dict.get u s.users))
    → amount d (Dict.get u (credit_user user p s).users) ≡ (
        if not (user === []) && user === u
        then add64
            (amount d (Dict.get u s.users))
            (progress d p (get_peer (info_hash_hex p) p.peer_id s))
        else amount d (Dict.get u s.users))
unfolding credit_user
amount-credit_user d user u p s h k w =
    ground (arith, amount-credit_since d user u p (get_peer (info_hash_hex p) p.peer_id s) s h k w)

pub users-update_peer :
    (hash id : Bytes) (p : Peer) (s : SwarmState) → (update_peer hash id p s).users ≡ s.users
unfolding update_peer
users-update_peer hash id p s = refl

pub users-remove_peer : (hash id : Bytes) (s : SwarmState) → (remove_peer hash id s).users ≡ s.users
unfolding remove_peer
users-remove_peer hash id s = refl

-- An announce that is served credits exactly its user, if it has one and does not stop, with the
-- progress of each counter since the peer's entry; a counter that went back gives nothing and takes
-- nothing from the other. Nobody else's totals change.
pub execute_announce-amount :
    (env : Env) (remote_addr client_ip user : Bytes) (p : AnnounceParams) (s : SwarmState)
    (d : Direction) (u : Bytes)
    → IsServed env remote_addr client_ip p
    → IsCounted p
    → IsCountedEntry (get_peer (info_hash_hex p) p.peer_id s)
    → IsWord (amount d (Dict.get u s.users))
    → amount d (Dict.get u (execute_announce env remote_addr user p s).state.users) ≡ (
        if not (is_stopped p.event) && not (user === []) && user === u
        then add64
            (amount d (Dict.get u s.users))
            (progress d p (get_peer (info_hash_hex p) p.peer_id s))
        else amount d (Dict.get u s.users))
execute_announce-amount env remote_addr client_ip user p s d u v h k w =
    let new = peer_of (join_host_port client_ip (decimal p.port)) env.now p in
    ap (λ t. amount d (Dict.get u t.users))
      (execute_announce-served env remote_addr client_ip user p s v)
    ∙ elim (Bool-cases (is_stopped p.event)) [
      | inl stop ↦
          unfold record_peer in
          rw stop
            (ap (λ m. amount d (Dict.get u m)) (users-remove_peer (info_hash_hex p) p.peer_id s))
      | inr go ↦
          unfold record_peer in
          rw go (
            ap (λ m. amount d (Dict.get u m))
              (users-update_peer (info_hash_hex p) p.peer_id new (credit_user user p s))
            ∙ amount-credit_user d user u p s h k w)
    ]
