-- ===== src/Tracker/Announce/Strangers.antt =====
-- Who is credited by a request: nobody but the user that authenticatePasskey lets in.
use weightless.Prelude.{
  ℕ, ◌≡◌, ◌≢◌, refl, ap, ◌∙◌, not, ◌&&◌, Option, none, some, [], Bytes, ◌===◌, arith, Bool-cases,
  inl, inr, ===_iff,
}
use weightless.Prelude.Decimal.{decimal}
use weightless.Prelude.Dict
use weightless.Prelude.HostPort.{split_host_port, join_host_port}
use weightless.Tracker.Auth.{Access, granted, unauthorized, passkey_required, authenticate_passkey}
use weightless.Tracker.Query.{Query}
use weightless.Tracker.Recognize
use weightless.Tracker.Recognize.{AnnounceParams, recognize_announce, info_hash_hex}
use weightless.Tracker.State.{Peer, SwarmState, get_peer}
use weightless.Tracker.State.Usage.{Direction, amount}
use weightless.Tracker.State.Usage.Flush.{amount-track_usage}
use weightless.Tracker.Announce.{
  Env, is_row, serve, execute_announce, handle_params, handle_access, handle_announce, is_stopped,
  peer_of, record_peer, credit_user, credit_since, delta_of,
}
use weightless.Tracker.Announce.Credit.{users-update_peer, users-remove_peer}

module _ (d : Direction) (u : Bytes) where
  -- What a state holds for the user
  abbrev total_of : SwarmState → ℕ
  total_of s = amount d (Dict.get u s.users)

  total_of-credit_since :
      (user : Bytes) (p : AnnounceParams) (old : Option Peer) (s : SwarmState)
      → user ≢ u
      → total_of (credit_since user p old s) ≡ total_of s
  total_of-credit_since user p none s h = refl
  total_of-credit_since user p (some old) s h =
      ground (arith, ===_iff user u, amount-track_usage d user u (delta_of p old) s)

  total_of-record_peer :
      (user addr : Bytes) (now : ℕ) (p : AnnounceParams) (s : SwarmState)
      → user ≢ u
      → total_of (record_peer user addr now p s) ≡ total_of s
  unfolding record_peer credit_user
  total_of-record_peer user addr now p s h =
      let old = get_peer (info_hash_hex p) p.peer_id s in
      let kept = total_of-credit_since user p old s h in
      elim (Bool-cases (is_stopped p.event)) [
        | inl stop ↦
            rw stop
              (ap (λ m. amount d (Dict.get u m)) (users-remove_peer (info_hash_hex p) p.peer_id s))
        | inr go ↦ rw go (
            ap (λ m. amount d (Dict.get u m))
              (users-update_peer (info_hash_hex p) p.peer_id (peer_of addr now p)
                (credit_user user p s))
            ∙ elim (Bool-cases (user === [])) [
              | inl nobody ↦ rw nobody refl
              | inr named ↦ rw named kept
            ])
      ]

  total_of-serve :
      (env : Env) (user : Bytes) (p : AnnounceParams) (parts : Option (Bytes × Bytes))
      (s : SwarmState)
      → user ≢ u
      → total_of (serve env user p parts s).state ≡ total_of s
  total_of-serve env user p none s h = refl
  total_of-serve env user p (some (client_ip, port)) s h =
      total_of-record_peer user (join_host_port client_ip (decimal p.port)) env.now p s h

  total_of-execute_announce :
      (env : Env) (remote_addr user : Bytes) (p : AnnounceParams) (s : SwarmState)
      → user ≢ u
      → total_of (execute_announce env remote_addr user p s).state ≡ total_of s
  unfolding execute_announce
  total_of-execute_announce env remote_addr user p s h =
      elim (Bool-cases (is_row (env.blocklist (info_hash_hex p)))) [
        | inl b ↦ rw b refl
        | inr b ↦
            elim (Bool-cases
              (not env.open_tracker && not (is_row (env.registry (info_hash_hex p))))) [
                | inl c ↦ rw (b, c) refl
                | inr c ↦ rw (b, c) (total_of-serve env user p (split_host_port remote_addr) s h)
              ]
      ]

  total_of-handle_params :
      (env : Env) (remote_addr user : Bytes) (r : Recognize.Result AnnounceParams) (s : SwarmState)
      → user ≢ u
      → total_of (handle_params env remote_addr user r s).state ≡ total_of s
  total_of-handle_params env remote_addr user (Recognize.err reason) s h = refl
  total_of-handle_params env remote_addr user (Recognize.ok p) s h =
      total_of-execute_announce env remote_addr user p s h

  total_of-handle_access :
      (env : Env) (remote_addr : Bytes) (access : Access) (q : Query) (s : SwarmState)
      → access ≢ granted u
      → total_of (handle_access env remote_addr access q s).state ≡ total_of s
  total_of-handle_access env remote_addr unauthorized q s h = refl
  total_of-handle_access env remote_addr passkey_required q s h = refl
  total_of-handle_access env remote_addr (granted user) q s h =
      total_of-handle_params env remote_addr user (recognize_announce q) s (λ e. h (ap granted e))

-- A request whose path does not let the user in leaves the user's totals as they were, whatever else
-- the request holds.
pub handle_announce-amount :
    (mac : Bytes → Bytes → Bytes) (secret env_secret : Bytes) (env : Env) (remote_addr path : Bytes)
    (q : Query) (s : SwarmState) (d : Direction) (u : Bytes)
    → authenticate_passkey mac secret env_secret path ≢ granted u
    → amount d
        (Dict.get u (handle_announce mac secret env_secret env remote_addr path q s).state.users)
      ≡ amount d (Dict.get u s.users)
unfolding handle_announce
handle_announce-amount mac secret env_secret env remote_addr path q s d u h =
    total_of-handle_access d u env remote_addr (authenticate_passkey mac secret env_secret path) q s
      h
