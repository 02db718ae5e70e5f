-- ===== src/Tracker/Announce/Effects.antt =====
-- What an announce leaves in the tracker's state: nothing if it is refused, else one peer's entry.
use weightless.Prelude.{
  ◌≡◌, refl, ap, ◌∙◌, false, not, ◌&&◌, Option, none, some, Bytes, ◌===◌, if◌then◌else◌, arith,
  Bool-cases, inl, inr,
}
use weightless.Prelude.Decimal.{decimal}
use weightless.Prelude.HostPort.{split_host_port, join_host_port}
use weightless.Tracker.Auth.{Access, granted, unauthorized, passkey_required, authenticate_passkey}
use weightless.Tracker.Query.{Query}
use weightless.Tracker.Recognize
use weightless.Tracker.Recognize.{AnnounceParams, recognize_announce, info_hash_hex}
use weightless.Tracker.State.History.{
  get_peer-update_peer, get_peer-remove_peer, get_peer-track_usage,
}
use weightless.Tracker.State.{Peer, SwarmState, get_peer}
use weightless.Tracker.Announce.{
  Env, is_row, Refusal, failure, serve, execute_announce, handle_params, handle_access,
  handle_announce, is_stopped, peer_of, record_peer, credit_user, credit_since, delta_of,
}

serve-refused :
    (env : Env) (user : Bytes) (p : AnnounceParams) (parts : Option (Bytes × Bytes))
    (s : SwarmState) (e : Refusal)
    → (serve env user p parts s).reply ≡ failure e
    → ((serve env user p parts s).state ≡ s) × ((serve env user p parts s).counted ≡ none)
serve-refused env user p none s e h = (refl, refl)
serve-refused env user p (some (client_ip, port)) s e h = cc

execute_announce-refused :
    (env : Env) (remote_addr user : Bytes) (p : AnnounceParams) (s : SwarmState) (e : Refusal)
    → (execute_announce env remote_addr user p s).reply ≡ failure e
    → ((execute_announce env remote_addr user p s).state ≡ s)
      × ((execute_announce env remote_addr user p s).counted ≡ none)
unfolding execute_announce
execute_announce-refused env remote_addr user p s e =
    elim (Bool-cases (is_row (env.blocklist (info_hash_hex p)))) [
      | inl b ↦ rw b (λ h. (refl, refl))
      | inr b ↦
          elim (Bool-cases
            (not env.open_tracker && not (is_row (env.registry (info_hash_hex p))))) [
              | inl c ↦ rw (b, c) (λ h. (refl, refl))
              | inr c ↦ rw (b, c) (serve-refused env user p (split_host_port remote_addr) s e)
            ]
    ]

handle_params-refused :
    (env : Env) (remote_addr user : Bytes) (r : Recognize.Result AnnounceParams) (s : SwarmState)
    (e : Refusal)
    → (handle_params env remote_addr user r s).reply ≡ failure e
    → ((handle_params env remote_addr user r s).state ≡ s)
      × ((handle_params env remote_addr user r s).counted ≡ none)
handle_params-refused env remote_addr user (Recognize.err reason) s e h = (refl, refl)
handle_params-refused env remote_addr user (Recognize.ok p) s e h =
    execute_announce-refused env remote_addr user p s e h

handle_access-refused :
    (env : Env) (remote_addr : Bytes) (access : Access) (q : Query) (s : SwarmState) (e : Refusal)
    → (handle_access env remote_addr access q s).reply ≡ failure e
    → ((handle_access env remote_addr access q s).state ≡ s)
      × ((handle_access env remote_addr access q s).counted ≡ none)
handle_access-refused env remote_addr unauthorized q s e h = (refl, refl)
handle_access-refused env remote_addr passkey_required q s e h = (refl, refl)
handle_access-refused env remote_addr (granted user) q s e h =
    handle_params-refused env remote_addr user (recognize_announce q) s e h

-- A request that is answered with a failure, whatever the reason, leaves the peers, the usage and
-- the counter as they were and counts no completion.
pub handle_announce-refused :
    (mac : Bytes → Bytes → Bytes) (secret env_secret : Bytes) (env : Env) (remote_addr path : Bytes)
    (q : Query) (s : SwarmState) (e : Refusal)
    → (handle_announce mac secret env_secret env remote_addr path q s).reply ≡ failure e
    → ((handle_announce mac secret env_secret env remote_addr path q s).state ≡ s)
      × ((handle_announce mac secret env_secret env remote_addr path q s).counted ≡ none)
unfolding handle_announce
handle_announce-refused mac secret env_secret env remote_addr path q s e h =
    handle_access-refused env remote_addr (authenticate_passkey mac secret env_secret path) q s e h

-- The hash is not blocked, it is registered unless the tracker is open, and the address splits.
pub record IsServed (env : Env) (remote_addr client_ip : Bytes) (p : AnnounceParams) : Type 0 where
  pub not_blocked : is_row (env.blocklist (info_hash_hex p)) ≡ false
  pub known : (not env.open_tracker && not (is_row (env.registry (info_hash_hex p)))) ≡ false
  pub remote_port : Bytes
  pub address : split_host_port remote_addr ≡ some (client_ip, remote_port)

pub execute_announce-served :
    (env : Env) (remote_addr client_ip user : Bytes) (p : AnnounceParams) (s : SwarmState)
    → IsServed env remote_addr client_ip p
    → (execute_announce env remote_addr user p s).state
      ≡ record_peer user (join_host_port client_ip (decimal p.port)) env.now p s
unfolding execute_announce
execute_announce-served env remote_addr client_ip user p s v =
    rw (v.not_blocked, v.known, v.address) refl

get_peer-credit_since :
    (hash id user : Bytes) (p : AnnounceParams) (old : Option Peer) (s : SwarmState)
    → get_peer hash id (credit_since user p old s) ≡ get_peer hash id s
get_peer-credit_since hash id user p none s = refl
get_peer-credit_since hash id user p (some old) s =
    ground (arith, get_peer-track_usage hash id user (delta_of p old) s)

get_peer-credit_user :
    (hash id user : Bytes) (p : AnnounceParams) (s : SwarmState)
    → get_peer hash id (credit_user user p s) ≡ get_peer hash id s
unfolding credit_user
get_peer-credit_user hash id user p s =
    ground (arith, get_peer-credit_since hash id user p (get_peer (info_hash_hex p) p.peer_id s) s)

-- An announce that is served, by whatever user, writes the entry of the peer that sent it in the swarm
-- of the hash it sent, with the address it came from at the port it named, the time and the amounts it
-- sent, or removes that entry if it stopped; the entries of all other peers, and of all peers of other swarms, stay.
pub execute_announce-get_peer :
    (env : Env) (remote_addr client_ip user : Bytes) (p : AnnounceParams) (s : SwarmState)
    (hash id : Bytes)
    → IsServed env remote_addr client_ip p
    → get_peer hash id (execute_announce env remote_addr user p s).state ≡ (
        if info_hash_hex p === hash && p.peer_id === id
        then (if is_stopped p.event
            then none
            else some (record {
              addr = join_host_port client_ip (decimal p.port);
              updated_at = env.now;
              left = p.left;
              downloaded = p.downloaded;
              uploaded = p.uploaded;
            }))
        else get_peer hash id s)
execute_announce-get_peer env remote_addr client_ip user p s hash id v =
    let new = peer_of (join_host_port client_ip (decimal p.port)) env.now p in
    ap (get_peer hash id) (execute_announce-served env remote_addr client_ip user p s v)
    ∙ elim (Bool-cases (is_stopped p.event)) [
      | inl stop ↦
          unfold record_peer in rw stop (get_peer-remove_peer hash id (info_hash_hex p) p.peer_id s)
      | inr go ↦
          unfold record_peer in
          rw go (
            get_peer-update_peer hash id (info_hash_hex p) p.peer_id new (credit_user user p s)
            ∙ rw (get_peer-credit_user hash id user p s) refl)
    ]
